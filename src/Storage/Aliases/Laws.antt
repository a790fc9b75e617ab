-- ===== src/Storage/Aliases/Laws.antt =====
-- An alias that is written is the one that is read.
use agent_proxy_rust.Common.{
  ◌≡◌, refl, String, Option, none, some, false, ◌&&◌, List, [], ◌∷◌, ◌++◌, any, find, arith,
  if◌then◌else◌, str_eq, eq_iff, map_option, Bool-cases, inl, inr,
}
use agent_proxy_rust.Storage.Types.{ModelAlias, ModelAliasRequest}
use agent_proxy_rust.Storage.Sql.{done, Conn, update_where, statement}
use agent_proxy_rust.Storage.Db.{Db}
use agent_proxy_rust.Storage.Channels.Health.{IsUp}
use agent_proxy_rust.Storage.Aliases.{
  is_alias, alias_named, write_alias, merge_alias, fresh_alias, upsert_model_alias,
  get_model_alias_target, read_alias,
}

-- The target of a name in the table.
abbrev pub target_in : String → List ModelAlias → Option String
target_in name rows =
    map_option (λ a. a.target_model) (find (λ a. is_alias name a && a.enabled) rows)

-- The target that a request sets: that of a disabled alias is not given out.
abbrev pub target_set : ModelAliasRequest → Option String
target_set request = if request.enabled then some request.target_model else none

target_missing :
    (name : String) (rows : List ModelAlias)
    → any (is_alias name) rows ≡ false
    → target_in name rows ≡ none
target_missing name [] h = refl
target_missing name (a ∷ rows) h = ground (arith, target_missing name rows)

target-merge :
    (asked now : String) (request : ModelAliasRequest) (rows : List ModelAlias)
    → target_in asked (update_where (is_alias request.alias_name) (merge_alias now request) rows)
      ≡ (if str_eq request.alias_name asked && any (is_alias request.alias_name) rows
          then target_set request
          else target_in asked rows)
unfolding merge_alias
target-merge asked now request [] = ground arith
target-merge asked now request (a ∷ rows) = ground (
  arith,
  target-merge asked now request rows,
  target_missing request.alias_name rows,
  eq_iff a.alias_name asked,
  eq_iff request.alias_name asked,
  eq_iff a.alias_name request.alias_name,
)

target-append :
    (asked : String) (new : ModelAlias) (rows : List ModelAlias)
    → any (is_alias new.alias_name) rows ≡ false
    → target_in asked (rows ++ (new ∷ [])) ≡ (
        if str_eq new.alias_name asked
        then (if new.enabled then some new.target_model else none)
        else target_in asked rows)
target-append asked new [] h = ground arith
target-append asked new (a ∷ rows) h = ground (
  arith,
  target-append asked new rows,
  eq_iff a.alias_name asked,
  eq_iff new.alias_name asked,
  eq_iff a.alias_name new.alias_name,
)

module _ {F : Type 0} where
  read_alias-tables :
      (conn : Conn) (trouble : Option String) (row : Option ModelAlias) (db : Db F)
      → (statement trouble db (read_alias conn row db)).0 ≡ db
  read_alias-tables conn (some message) row db = refl
  read_alias-tables conn none none db = refl
  read_alias-tables conn none (some a) db = refl

  target-write :
      (asked now : String) (request : ModelAliasRequest) (db : Db F)
      → target_in asked (write_alias now request db).model_aliases ≡ (
          if str_eq request.alias_name asked
          then target_set request
          else target_in asked db.model_aliases)
  unfolding fresh_alias
  target-write asked now request db =
      elim (Bool-cases (any (is_alias request.alias_name) db.model_aliases)) [
        | inl known ↦ ground (arith, known, target-merge asked now request db.model_aliases)
        | inr new ↦ ground (
          arith,
          new,
          target-append asked (fresh_alias db.next_alias_id now request) db.model_aliases,
        )
      ]

  -- After an alias is written, its name has the new target, or none if the alias is disabled; every
  -- other name has the target that it had.
  pub get-upsert_model_alias :
      (conn : Conn) (now asked : String) (request : ModelAliasRequest) (db : Db F)
      → IsUp conn
      → let db' = (upsert_model_alias conn now request db).0 in
        (get_model_alias_target conn asked db').1
        ≡ done (
            if str_eq request.alias_name asked
            then target_set request
            else target_in asked db.model_aliases)
  unfolding upsert_model_alias get_model_alias_target
  get-upsert_model_alias conn now asked request db up =
      let db' = write_alias now request db in
      ground (
        arith,
        up.pool,
        up.statements 0,
        up.statements 1,
        target-write asked now request db,
        read_alias-tables conn (conn.trouble 1) (alias_named request.alias_name db') db',
      )
