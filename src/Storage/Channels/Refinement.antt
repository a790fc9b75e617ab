-- ===== src/Storage/Channels/Refinement.antt =====
-- The tables implement the map: any sequence of calls, with failures of the engine anywhere, leaves
-- the rows that the abstract calls leave.
use agent_proxy_rust.Common.{
  ℕ, String, Option, none, some, true, List, [], ◌∷◌, if◌then◌else◌, map_option, ◌≡◌, refl, arith,
  fun_ext, str_eq, eq_iff, Option-cases, inl, inr, Bool-cases, ◌+◌, ◌∙◌, ap,
}
use agent_proxy_rust.Storage.Types.{Channel}
use agent_proxy_rust.Storage.Sql.{Conn, statement}
use agent_proxy_rust.Storage.Db.{Db}
use agent_proxy_rust.Storage.Channels.{
  ChannelPatch, upsert_channel, set_channel_enabled, set_channel_api_key, update_channel,
  delete_channel, mark_channel_healthy, record_channel_failure, merge_channel, fresh_channel,
  enable_row, key_row, patch_channel, reset_row, bump_row, settle_row, binds, stored, updated,
  update_one, read_back,
}
use agent_proxy_rust.Storage.Channels.Laws.{
  Rows, change, find-update_id, find-delete_id, any-find, find-append_id,
}
use agent_proxy_rust.Storage.Channels.Spec.{
  ChannelCommand, upsert, set_enabled, set_api_key, update, delete, heal, fail, Call, perform_with,
  run_calls, reaches, failed_row, upserted, act, replay,
}

abbrev pub rows_of : {F : Type 0} → Db F → Rows
rows_of db id = stored id db

when_fits :
    (conn : Conn) (now : ℕ) (ch : Channel) (rows : Rows)
    → binds ch.monthly_quota ≡ true
    → (if reaches conn then change rows ch.id (some (upserted now ch (rows ch.id))) else rows) ≡ (
        if reaches conn
        then (if binds ch.monthly_quota
            then change rows ch.id (some (upserted now ch (rows ch.id)))
            else rows)
        else rows)
when_fits conn now ch rows fits = rw fits refl

module _ {F : Type 0} where
  pub rows_of-update_one :
      (conn : Conn) (id : String) (f : Channel → Channel) (db : Db F)
      → ((x : Channel) → (f x).id ≡ x.id)
      → rows_of (update_one conn id f db).0 ≡ (
          if reaches conn
          then change (rows_of db) id (map_option f (rows_of db id))
          else rows_of db)
  rows_of-update_one conn id f db h = fun_ext λ asked.
      ground
        (arith, any-find id db.channels, find-update_id asked id f db.channels h, eq_iff id asked)

  rows_of-delete :
      (conn : Conn) (id : String) (db : Db F)
      → rows_of (delete_channel conn id db).0
        ≡ (if reaches conn then change (rows_of db) id none else rows_of db)
  unfolding delete_channel
  rows_of-delete conn id db = fun_ext λ asked.
      ground (arith, any-find id db.channels, find-delete_id asked id db.channels, eq_iff id asked)

  rows_of-upsert :
      (conn : Conn) (now : ℕ) (ch : Channel) (db : Db F)
      → binds ch.monthly_quota ≡ true
      → rows_of (upsert_channel conn now ch db).0 ≡ (
          if reaches conn
          then change (rows_of db) ch.id (some (upserted now ch (rows_of db ch.id)))
          else rows_of db)
  unfolding upsert_channel fresh_channel merge_channel
  rows_of-upsert conn now ch db h = fun_ext λ asked. ground (
    arith,
    any-find ch.id db.channels,
    find-update_id asked ch.id (merge_channel now ch) db.channels (λ x. refl),
    find-append_id asked db.channels (fresh_channel now ch),
    eq_iff ch.id asked,
  )

  pub stored-updated :
      (asked id : String) (f : Channel → Channel) (db : Db F)
      → ((x : Channel) → (f x).id ≡ x.id)
      → stored asked (updated id f db)
        ≡ (if str_eq id asked then map_option f (stored id db) else stored asked db)
  stored-updated asked id f db h = find-update_id asked id f db.channels h

  pub rows_of-fail :
      (conn : Conn) (now : ℕ) (later id : String) (db : Db F)
      → rows_of (record_channel_failure conn now later id db).0 ≡ (
          if reaches conn
          then change (rows_of db) id (map_option (failed_row conn now later) (rows_of db id))
          else rows_of db)
  unfolding record_channel_failure failed_row bump_row settle_row
  rows_of-fail conn now later id db = fun_ext λ asked.
      let first = stored-updated asked id (bump_row now) db (λ x. refl) in
      let own = stored-updated id id (bump_row now) db (λ x. refl) in
      elim (Option-cases (stored id db)) [
        | inl absent ↦ ground (arith, first, own, absent, eq_iff id asked, eq_iff id id)
        | inr (row, present) ↦
            let n = row.consecutive_failures + 1 in
            let second =
              stored-updated asked id (settle_row later n) (updated id (bump_row now) db)
                (λ x. refl) in
            ground (arith, first, own, second, present, eq_iff id asked, eq_iff id id)
      ]

  -- What is read back changes nothing.
  read-tables :
      (conn : Conn) (trouble : Option String) (row : Option Channel) (db : Db F)
      → (statement trouble db (read_back conn row db)).0 ≡ db
  read-tables conn (some message) row db = refl
  read-tables conn none none db = refl
  read-tables conn none (some row) db = refl

  pub update_channel-tables :
      (conn : Conn) (now : ℕ) (id : String) (p : ChannelPatch) (db : Db F)
      → (update_channel conn now id p db).0 ≡ (update_one conn id (patch_channel now p) db).0
  unfolding update_channel
  update_channel-tables conn now id p db =
      let db' = updated id (patch_channel now p) db in
      ground (arith, read-tables conn (conn.trouble 1) (stored id db') db')

  -- One call.
  pub rows_of-perform :
      (conn : Conn) (now : ℕ) (later : String) (command : ChannelCommand) (db : Db F)
      → rows_of (perform_with conn now later command db)
        ≡ (if reaches conn then act conn now later command (rows_of db) else rows_of db)
  unfolding perform_with act upsert_channel set_channel_enabled set_channel_api_key update_channel
      mark_channel_healthy enable_row key_row patch_channel reset_row
  rows_of-perform conn now later (upsert ch) db = elim (Bool-cases (binds ch.monthly_quota)) [
    | inl fits ↦ rows_of-upsert conn now ch db fits ∙ when_fits conn now ch (rows_of db) fits
    | inr too_large ↦ ground (arith, too_large)
  ]
  rows_of-perform conn now later (set_enabled id b) db =
      rows_of-update_one conn id (enable_row now b) db (λ x. refl)
  rows_of-perform conn now later (set_api_key id k) db =
      rows_of-update_one conn id (key_row now k) db (λ x. refl)
  rows_of-perform conn now later (update id p) db =
      ap rows_of (update_channel-tables conn now id p db)
      ∙ rows_of-update_one conn id (patch_channel now p) db (λ x. refl)
  rows_of-perform conn now later (delete id) db = rows_of-delete conn id db
  rows_of-perform conn now later (heal id) db =
      rows_of-update_one conn id (reset_row now) db (λ x. refl)
  rows_of-perform conn now later (fail id) db = rows_of-fail conn now later id db

  -- Over any sequence of calls, whatever the engine answers in each, the tables hold for each id
  -- the row that the same calls leave in a map.
  pub run_calls_refines :
      (calls : List Call) (db : Db F) → rows_of (run_calls calls db) ≡ replay calls (rows_of db)
  unfolding run_calls replay
  run_calls_refines [] db = refl
  run_calls_refines (c ∷ calls) db =
      rw (run_calls_refines calls, rows_of-perform c.conn c.now c.later c.command db) refl
