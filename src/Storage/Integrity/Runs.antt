-- ===== src/Storage/Integrity/Runs.antt =====
-- The invariant over sequences of writes to the tables of channels and mappings.
use agent_proxy_rust.Common.{ℕ, ◌≡◌, refl, String, Bool, true, List, [], ◌∷◌, All}
use agent_proxy_rust.Storage.Types.{ModelMapping}
use agent_proxy_rust.Storage.Sql.{Conn}
use agent_proxy_rust.Storage.Db.{Db}
use agent_proxy_rust.Storage.Channels.{
  set_channel_enabled, set_channel_api_key, mark_channel_healthy, enable_row, key_row, reset_row,
}
use agent_proxy_rust.Storage.Channels.Spec.{
  ChannelCommand, upsert, set_enabled, set_api_key, update, delete, heal, fail, perform_with,
}
use agent_proxy_rust.Storage.Mappings.{upsert_mapping, set_mapping_enabled, delete_mapping}
use agent_proxy_rust.Storage.Integrity.{IsSound}
use agent_proxy_rust.Storage.Integrity.Channels.{
  update_one-IsSound, upsert_channel-IsSound, delete_channel-IsSound,
  record_channel_failure-IsSound, update_channel-IsSound,
}
use agent_proxy_rust.Storage.Integrity.Mappings.{
  upsert_mapping-IsSound, set_mapping_enabled-IsSound, delete_mapping-IsSound,
}

pub data Write : Type 0 where
  channel : ChannelCommand → Write
  put_mapping : ModelMapping → Write
  enable_mapping : String → Bool → Write
  drop_mapping : String → Write

pub record WriteCall : Type 0 where
  pub conn : Conn
  pub now : ℕ
  pub later : String
  pub write : Write

module _ {F : Type 0} where
  unfoldable pub write_with : Conn → ℕ → String → Write → Db F → Db F
  write_with conn now later (channel command) db = perform_with conn now later command db
  write_with conn now later (put_mapping m) db = (upsert_mapping conn m db).0
  write_with conn now later (enable_mapping id b) db = (set_mapping_enabled conn id b db).0
  write_with conn now later (drop_mapping id) db = (delete_mapping conn id db).0

  unfoldable pub run_writes : List WriteCall → Db F → Db F
  run_writes [] db = db
  run_writes (c ∷ calls) db = run_writes calls (write_with c.conn c.now c.later c.write db)

  perform-IsSound :
      (conn : Conn) (now : ℕ) (later : String) (command : ChannelCommand) (db : Db F)
      → conn.foreign_keys ≡ true
      → IsSound db
      → IsSound (perform_with conn now later command db)
  unfolding perform_with set_channel_enabled set_channel_api_key mark_channel_healthy enable_row
      key_row reset_row
  perform-IsSound conn now later (upsert ch) db on s = upsert_channel-IsSound conn now ch db s
  perform-IsSound conn now later (set_enabled id b) db on s =
      update_one-IsSound conn id (enable_row now b) db (λ x. refl) s
  perform-IsSound conn now later (set_api_key id k) db on s =
      update_one-IsSound conn id (key_row now k) db (λ x. refl) s
  perform-IsSound conn now later (update id p) db on s = update_channel-IsSound conn now id p db s
  perform-IsSound conn now later (delete id) db on s = delete_channel-IsSound conn id db on s
  perform-IsSound conn now later (heal id) db on s =
      update_one-IsSound conn id (reset_row now) db (λ x. refl) s
  perform-IsSound conn now later (fail id) db on s =
      record_channel_failure-IsSound conn now later id db s

  write-IsSound :
      (conn : Conn) (now : ℕ) (later : String) (w : Write) (db : Db F)
      → conn.foreign_keys ≡ true
      → IsSound db
      → IsSound (write_with conn now later w db)
  unfolding write_with
  write-IsSound conn now later (channel command) db on s =
      perform-IsSound conn now later command db on s
  write-IsSound conn now later (put_mapping m) db on s = upsert_mapping-IsSound conn m db on s
  write-IsSound conn now later (enable_mapping id b) db on s =
      set_mapping_enabled-IsSound conn id b db s
  write-IsSound conn now later (drop_mapping id) db on s = delete_mapping-IsSound conn id db s

  -- With foreign keys enforced, any sequence of writes to channels and mappings, whatever fails in
  -- it, leaves the ids distinct and no mapping without its channel.
  pub run_writes-IsSound :
      (calls : List WriteCall) (db : Db F)
      → All (λ c. c.conn.foreign_keys ≡ true) calls
      → IsSound db
      → IsSound (run_writes calls db)
  unfolding run_writes
  run_writes-IsSound [] db on s = s
  run_writes-IsSound (c ∷ calls) db on s =
      run_writes-IsSound calls (write_with c.conn c.now c.later c.write db) on.1
        (write-IsSound c.conn c.now c.later c.write db on.0 s)
