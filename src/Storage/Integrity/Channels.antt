-- ===== src/Storage/Integrity/Channels.antt =====
-- The invariant of the tables under the methods that write channels.
use agent_proxy_rust.Common.{
  ℕ, ◌≡◌, refl, sym, ap, ◌∙◌, String, Option, none, some, true, false, List, [], ◌∷◌, ◌++◌, str_eq,
  any, All, arith, eq_iff, Bool-cases, inl, inr, ltb, subst,
}
use agent_proxy_rust.Storage.Types.{Channel, ModelMapping}
use agent_proxy_rust.Storage.Sql.{Conn, update_where, delete_where}
use agent_proxy_rust.Storage.Sql.Laws.{
  pooled-keeps, statement-keeps, if-keeps, update_where-Distinct, delete_where-Distinct,
  append-Distinct, any-update_where, any-append_one,
}
use agent_proxy_rust.Storage.Sql.Order.{All-imply}
use agent_proxy_rust.Storage.Db.{Db}
use agent_proxy_rust.Storage.Channels.{
  has_id, updated, update_one, upsert_channel, update_channel, delete_channel,
  record_channel_failure, merge_channel, fresh_channel, patch_channel, bump_row, settle_row,
  read_then_settle, settle_failure, stored, with_channels, ChannelPatch,
}
use agent_proxy_rust.Storage.Channels.Refinement.{update_channel-tables}
use agent_proxy_rust.Storage.Mappings.{of_channel}
use agent_proxy_rust.Storage.Integrity.{IsSound}

any-delete_ne :
    (c id : String) (chs : List Channel)
    → str_eq c id ≡ false
    → any (has_id c) (delete_where (has_id id) chs) ≡ any (has_id c) chs
any-delete_ne c id [] h = refl
any-delete_ne c id (x ∷ xs) h =
    ground (arith, any-delete_ne c id xs h, eq_iff x.id c, eq_iff x.id id, eq_iff c id)

linked_after_delete :
    (id : String) (chs : List Channel) (ms : List ModelMapping)
    → All (λ m. any (has_id m.channel_id) chs ≡ true) ms
    → All
        (λ m. any (has_id m.channel_id) (delete_where (has_id id) chs) ≡ true)
        (delete_where (of_channel id) ms)
linked_after_delete id chs [] h = tt
linked_after_delete id chs (m ∷ ms) h =
    ground (arith, linked_after_delete id chs ms h.1, any-delete_ne m.channel_id id chs)

module _ {F : Type 0} where
  updated-IsSound :
      (id : String) (f : Channel → Channel) (db : Db F)
      → ((x : Channel) → (f x).id ≡ x.id)
      → IsSound db
      → IsSound (updated id f db)
  updated-IsSound id f db h s = record {
    channel_ids =
        update_where-Distinct (λ ch. ch.id) (has_id id) f db.channels (λ x p. h x) s.channel_ids;
    mapping_ids = s.mapping_ids;
    linked =
        All-imply (λ m. any (has_id m.channel_id) db.channels ≡ true)
          (λ m. any (has_id m.channel_id) (update_where (has_id id) f db.channels) ≡ true)
          db.model_mappings
          (λ m e.
            any-update_where (has_id m.channel_id) (has_id id) f db.channels
              (λ x. ap (λ i. str_eq i m.channel_id) (h x))
            ∙ e)
          s.linked;
  }

  pub update_one-IsSound :
      (conn : Conn) (id : String) (f : Channel → Channel) (db : Db F)
      → ((x : Channel) → (f x).id ≡ x.id)
      → IsSound db
      → IsSound (update_one conn id f db).0
  update_one-IsSound conn id f db h s = ground (arith, updated-IsSound id f db h s)

  inserted-IsSound :
      (db : Db F) (new : Channel)
      → any (has_id new.id) db.channels ≡ false
      → IsSound db
      → IsSound (with_channels db (db.channels ++ (new ∷ [])))
  inserted-IsSound db new h s = record {
    channel_ids = append-Distinct (λ ch. ch.id) db.channels new s.channel_ids h;
    mapping_ids = s.mapping_ids;
    linked =
        All-imply (λ m. any (has_id m.channel_id) db.channels ≡ true)
          (λ m. any (has_id m.channel_id) (db.channels ++ (new ∷ [])) ≡ true) db.model_mappings
          (λ m e. ground (arith, e, any-append_one (has_id m.channel_id) db.channels new)) s.linked;
  }

  pub upsert_channel-IsSound :
      (conn : Conn) (now : ℕ) (ch : Channel) (db : Db F)
      → IsSound db
      → IsSound (upsert_channel conn now ch db).0
  unfolding upsert_channel merge_channel fresh_channel
  upsert_channel-IsSound conn now ch db s = elim (Bool-cases (any (has_id ch.id) db.channels)) [
    | inl known ↦
        ground (arith, known, updated-IsSound ch.id (merge_channel now ch) db (λ x. refl) s)
    | inr new ↦ ground (arith, new, inserted-IsSound db (fresh_channel now ch) new s)
  ]

  deleted-IsSound :
      (id : String) (db : Db F)
      → IsSound db
      → IsSound (record db {
        channels = delete_where (has_id id) db.channels;
        model_mappings = delete_where (of_channel id) db.model_mappings;
      })
  deleted-IsSound id db s = record {
    channel_ids = delete_where-Distinct (λ ch. ch.id) (has_id id) db.channels s.channel_ids;
    mapping_ids = delete_where-Distinct (λ m. m.id) (of_channel id) db.model_mappings s.mapping_ids;
    linked = linked_after_delete id db.channels db.model_mappings s.linked;
  }

  pub delete_channel-IsSound :
      (conn : Conn) (id : String) (db : Db F)
      → conn.foreign_keys ≡ true
      → IsSound db
      → IsSound (delete_channel conn id db).0
  unfolding delete_channel
  delete_channel-IsSound conn id db on s = ground (arith, on, deleted-IsSound id db s)

  settle-IsSound :
      (conn : Conn) (later id : String) (row : Option Channel) (db : Db F)
      → IsSound db
      → IsSound (settle_failure conn later id row db).0
  unfolding settle_row
  settle-IsSound conn later id none db s = s
  settle-IsSound conn later id (some row) db s =
      if-keeps IsSound (ltb row.consecutive_failures 2147483648) _ _
        (λ e.
          statement-keeps IsSound (conn.trouble 2) db _ s
            (updated-IsSound id (settle_row later row.consecutive_failures) db (λ x. refl) s))
        (λ e. s)

  read_then_settle-IsSound :
      (conn : Conn) (later id : String) (db : Db F)
      → IsSound db
      → IsSound (read_then_settle conn later id db).0
  read_then_settle-IsSound conn later id db s =
      statement-keeps IsSound (conn.trouble 1) db _ s
        (settle-IsSound conn later id (stored id db) db s)

  pub record_channel_failure-IsSound :
      (conn : Conn) (now : ℕ) (later id : String) (db : Db F)
      → IsSound db
      → IsSound (record_channel_failure conn now later id db).0
  unfolding record_channel_failure bump_row
  record_channel_failure-IsSound conn now later id db s = pooled-keeps IsSound conn.refused db _ s (
      statement-keeps IsSound (conn.trouble 0) db _ s (
        read_then_settle-IsSound conn later id (updated id (bump_row now) db)
          (updated-IsSound id (bump_row now) db (λ x. refl) s)))

  pub update_channel-IsSound :
      (conn : Conn) (now : ℕ) (id : String) (p : ChannelPatch) (db : Db F)
      → IsSound db
      → IsSound (update_channel conn now id p db).0
  unfolding patch_channel
  update_channel-IsSound conn now id p db s =
      subst IsSound (sym (update_channel-tables conn now id p db))
        (update_one-IsSound conn id (patch_channel now p) db (λ x. refl) s)
