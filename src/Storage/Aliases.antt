-- ===== src/Storage/Aliases.antt =====
-- The alias methods of crates/storage-sqlite/src/lib.rs. `now` is what `datetime('now')` writes, and
-- `print_id` prints an id.
pub mod Laws
use agent_proxy_rust.Core.Error.{◌<>◌}
use agent_proxy_rust.Common.{
  ℕ, ◌+◌, String, Option, none, some, Bool, true, false, ◌&&◌, List, [], ◌∷◌, ◌++◌, if◌then◌else◌,
  str_eq, ◌==◌, any, find, map_option,
}
use agent_proxy_rust.Storage.Types.{ModelAlias, ModelAliasRequest, StorageError, backend, not_found}
use agent_proxy_rust.Storage.Sql.{
  Outcome, failed, done, Conn, with_conn, statement, update_where, delete_where, order_by, text_le,
}
use agent_proxy_rust.Storage.Db.{Db}

abbrev pub is_alias : String → ModelAlias → Bool
is_alias name a = str_eq a.alias_name name

abbrev pub alias_id : ℕ → ModelAlias → Bool
alias_id id a = a.id == id

unfoldable pub merge_alias : String → ModelAliasRequest → ModelAlias → ModelAlias
merge_alias now request old = record old {
  target_model = request.target_model;
  enabled = request.enabled;
  updated_at = now;
}

unfoldable pub fresh_alias : ℕ → String → ModelAliasRequest → ModelAlias
fresh_alias id now request = record {
  id = id;
  alias_name = request.alias_name;
  target_model = request.target_model;
  enabled = request.enabled;
  created_at = now;
  updated_at = now;
}

abbrev pub alias_missing : (ℕ → String) → ℕ → StorageError
alias_missing print_id id = not_found ("alias not found: " <> print_id id)

module _ {F : Type 0} where
  abbrev pub with_aliases : Db F → List ModelAlias → Db F
  with_aliases db rows = record db { model_aliases = rows }

  unfoldable pub list_model_aliases : Conn → Db F → Db F × Outcome (List ModelAlias)
  list_model_aliases conn db = with_conn conn db (
      statement (conn.trouble 0) db
        (db, done (order_by (λ a b. text_le a.alias_name b.alias_name) db.model_aliases)))

  unfoldable pub get_model_alias_target : Conn → String → Db F → Db F × Outcome (Option String)
  get_model_alias_target conn name db = with_conn conn db (
      statement (conn.trouble 0) db (
        db,
        done (
            map_option (λ a. a.target_model)
              (find (λ a. is_alias name a && a.enabled) db.model_aliases)),
      ))

  abbrev pub write_alias : String → ModelAliasRequest → Db F → Db F
  write_alias now request db =
      if any (is_alias request.alias_name) db.model_aliases
      then with_aliases db
          (update_where (is_alias request.alias_name) (merge_alias now request) db.model_aliases)
      else record db {
        model_aliases = db.model_aliases ++ (fresh_alias db.next_alias_id now request ∷ []);
        next_alias_id = db.next_alias_id + 1;
      }

  abbrev pub read_alias : Conn → Option ModelAlias → Db F → Db F × Outcome ModelAlias
  read_alias conn none db = (db, failed (backend conn.no_rows))
  read_alias conn (some a) db = (db, done a)

  abbrev pub alias_named : String → Db F → Option ModelAlias
  alias_named name db = find (is_alias name) db.model_aliases

  abbrev pub write_then_read : Conn → String → Db F → Db F × Outcome ModelAlias
  write_then_read conn name db =
      statement (conn.trouble 1) db (read_alias conn (alias_named name db) db)

  unfoldable pub upsert_model_alias :
      Conn → String → ModelAliasRequest → Db F → Db F × Outcome ModelAlias
  upsert_model_alias conn now request db = with_conn conn db (
      statement (conn.trouble 0) db
        (write_then_read conn request.alias_name (write_alias now request db)))

  unfoldable pub delete_model_alias : (ℕ → String) → Conn → ℕ → Db F → Db F × Outcome (Unit {0})
  delete_model_alias print_id conn id db = with_conn conn db (
      statement (conn.trouble 0) db (
        if any (alias_id id) db.model_aliases
        then (with_aliases db (delete_where (alias_id id) db.model_aliases), done tt)
        else (db, failed (alias_missing print_id id))))

  unfoldable pub set_model_alias_enabled :
      (ℕ → String) → Conn → String → ℕ → Bool → Db F → Db F × Outcome (Unit {0})
  set_model_alias_enabled print_id conn now id enabled db = with_conn conn db (
      statement (conn.trouble 0) db (
        if any (alias_id id) db.model_aliases
        then (
          with_aliases db (
              update_where (alias_id id) (λ old. record old { enabled = enabled; updated_at = now })
                db.model_aliases),
          done tt,
        )
        else (db, failed (alias_missing print_id id))))
