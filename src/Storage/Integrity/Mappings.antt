-- ===== src/Storage/Integrity/Mappings.antt =====
-- The invariant of the tables under the methods that write mappings.
use agent_proxy_rust.Common.{
  ◌≡◌, refl, sym, String, Option, none, some, Bool, true, false, not, ◌&&◌, List, [], ◌∷◌, ◌++◌,
  any, All, arith, eq_iff, Bool-cases, inl, inr, All-append,
}
use agent_proxy_rust.Storage.Types.{Channel, ModelMapping}
use agent_proxy_rust.Storage.Sql.{Conn, update_where, delete_where}
use agent_proxy_rust.Storage.Sql.Laws.{
  pooled-keeps, if-keeps, update_where-Distinct, delete_where-Distinct, append-Distinct,
}
use agent_proxy_rust.Storage.Db.{Db}
use agent_proxy_rust.Storage.Channels.{has_id}
use agent_proxy_rust.Storage.Mappings.{
  is_mapping, upsert_mapping, write_mapping, set_mapping_enabled, delete_mapping, with_mappings,
}
use agent_proxy_rust.Storage.Integrity.{IsSound}

linked_after_replace :
    (m : ModelMapping) (chs : List Channel) (ms : List ModelMapping)
    → any (has_id m.channel_id) chs ≡ true
    → All (λ x. any (has_id x.channel_id) chs ≡ true) ms
    → All (λ x. any (has_id x.channel_id) chs ≡ true) (update_where (is_mapping m.id) (λ old. m) ms)
linked_after_replace m chs [] known h = tt
linked_after_replace m chs (x ∷ xs) known h =
    ground (arith, linked_after_replace m chs xs known h.1)

linked_after_enable :
    (id : String) (enabled : Bool) (chs : List Channel) (ms : List ModelMapping)
    → All (λ x. any (has_id x.channel_id) chs ≡ true) ms
    → All
        (λ x. any (has_id x.channel_id) chs ≡ true)
        (update_where (is_mapping id) (λ old. record old { enabled = enabled }) ms)
linked_after_enable id enabled chs [] h = tt
linked_after_enable id enabled chs (x ∷ xs) h =
    ground (arith, linked_after_enable id enabled chs xs h.1)

linked_after_drop :
    (id : String) (chs : List Channel) (ms : List ModelMapping)
    → All (λ x. any (has_id x.channel_id) chs ≡ true) ms
    → All (λ x. any (has_id x.channel_id) chs ≡ true) (delete_where (is_mapping id) ms)
linked_after_drop id chs [] h = tt
linked_after_drop id chs (x ∷ xs) h = ground (arith, linked_after_drop id chs xs h.1)

module _ {F : Type 0} where
  replaced-IsSound :
      (m : ModelMapping) (db : Db F)
      → any (has_id m.channel_id) db.channels ≡ true
      → IsSound db
      → IsSound (with_mappings db (update_where (is_mapping m.id) (λ old. m) db.model_mappings))
  replaced-IsSound m db known s = record {
    channel_ids = s.channel_ids;
    mapping_ids =
        update_where-Distinct (λ x. x.id) (is_mapping m.id) (λ old. m) db.model_mappings
          (λ x p. sym ((eq_iff x.id m.id).0 p)) s.mapping_ids;
    linked = linked_after_replace m db.channels db.model_mappings known s.linked;
  }

  added-IsSound :
      (m : ModelMapping) (db : Db F)
      → any (has_id m.channel_id) db.channels ≡ true
      → any (is_mapping m.id) db.model_mappings ≡ false
      → IsSound db
      → IsSound (with_mappings db (db.model_mappings ++ (m ∷ [])))
  added-IsSound m db known new s = record {
    channel_ids = s.channel_ids;
    mapping_ids = append-Distinct (λ x. x.id) db.model_mappings m s.mapping_ids new;
    linked =
        All-append (λ x. any (has_id x.channel_id) db.channels ≡ true) db.model_mappings (m ∷ [])
          s.linked (known, tt);
  }

  write_mapping-IsSound :
      (conn : Conn) (trouble : Option String) (m : ModelMapping) (db : Db F)
      → conn.foreign_keys ≡ true
      → IsSound db
      → IsSound (write_mapping conn trouble m db).0
  write_mapping-IsSound conn (some message) m db on s = s
  write_mapping-IsSound conn none m db on s =
      if-keeps IsSound (conn.foreign_keys && not (any (has_id m.channel_id) db.channels)) _ _
        (λ broken. s)
        (λ fine.
          let known : any (has_id m.channel_id) db.channels ≡ true = ground (arith, on, fine) in
          elim (Bool-cases (any (is_mapping m.id) db.model_mappings)) [
            | inl old ↦ ground (arith, old, replaced-IsSound m db known s)
            | inr new ↦ ground (arith, new, added-IsSound m db known new s)
          ])

  enabled-IsSound :
      (id : String) (enabled : Bool) (db : Db F)
      → IsSound db
      → IsSound (
          with_mappings db (
            update_where
              (is_mapping id)
              (λ old. record old { enabled = enabled })
              db.model_mappings))
  enabled-IsSound id enabled db s = record {
    channel_ids = s.channel_ids;
    mapping_ids =
        update_where-Distinct (λ x. x.id) (is_mapping id) (λ old. record old { enabled = enabled })
          db.model_mappings (λ x p. refl) s.mapping_ids;
    linked = linked_after_enable id enabled db.channels db.model_mappings s.linked;
  }

  dropped-IsSound :
      (id : String) (db : Db F)
      → IsSound db
      → IsSound (with_mappings db (delete_where (is_mapping id) db.model_mappings))
  dropped-IsSound id db s = record {
    channel_ids = s.channel_ids;
    mapping_ids = delete_where-Distinct (λ x. x.id) (is_mapping id) db.model_mappings s.mapping_ids;
    linked = linked_after_drop id db.channels db.model_mappings s.linked;
  }

  pub upsert_mapping-IsSound :
      (conn : Conn) (m : ModelMapping) (db : Db F)
      → conn.foreign_keys ≡ true
      → IsSound db
      → IsSound (upsert_mapping conn m db).0
  unfolding upsert_mapping
  upsert_mapping-IsSound conn m db on s =
      pooled-keeps IsSound conn.refused db _ s
        (write_mapping-IsSound conn (conn.trouble 0) m db on s)

  pub set_mapping_enabled-IsSound :
      (conn : Conn) (id : String) (enabled : Bool) (db : Db F)
      → IsSound db
      → IsSound (set_mapping_enabled conn id enabled db).0
  unfolding set_mapping_enabled
  set_mapping_enabled-IsSound conn id enabled db s = ground (arith, enabled-IsSound id enabled db s)

  pub delete_mapping-IsSound :
      (conn : Conn) (id : String) (db : Db F) → IsSound db → IsSound (delete_mapping conn id db).0
  unfolding delete_mapping
  delete_mapping-IsSound conn id db s = ground (arith, dropped-IsSound id db s)
