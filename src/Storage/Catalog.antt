-- ===== src/Storage/Catalog.antt =====
-- The provider and model methods of crates/storage-sqlite/src/lib.rs, which only read. `rfc` writes
-- the time of a number of seconds, and that of the epoch beyond the calendar.
use agent_proxy_rust.Common.{
  ℕ, String, Option, none, some, Bool, ◌||◌, ◌&&◌, List, map, str_eq, keep, find, length, u32,
  map_option,
}
use agent_proxy_rust.Storage.Types.{Provider, Model}
use agent_proxy_rust.Storage.Sql.{
  Outcome, done, Conn, with_conn, statement, order_by, text_le, text_lt,
}
use agent_proxy_rust.Storage.Db.{Db, ProviderRow, ModelRow}

abbrev pub provider_of : (ℕ → String) → ProviderRow → Provider
provider_of rfc row = record { id = row.id; name = row.name; created_at = rfc row.created_at }

module _ {F : Type 0} (rfc : ℕ → String) where
  unfoldable pub list_providers : Conn → Db F → Db F × Outcome (List Provider)
  list_providers conn db = with_conn conn db (
      statement (conn.trouble 0) db
        (db, done (map (provider_of rfc) (order_by (λ a b. text_le a.id b.id) db.providers))))

  unfoldable pub get_provider : Conn → String → Db F → Db F × Outcome (Option Provider)
  get_provider conn id db = with_conn conn db (
      statement (conn.trouble 0) db
        (db, done (map_option (provider_of rfc) (find (λ row. str_eq row.id id) db.providers))))

  -- The `SELECT` of a model counts the mappings of its name.
  abbrev model_of : Db F → ModelRow F → Model F
  model_of db row = record {
    id = row.id;
    provider_id = row.provider_id;
    client_name = row.client_name;
    price_input = row.price_input;
    price_output = row.price_output;
    currency = row.currency;
    context_window = row.context_window;
    created_at = rfc row.created_at;
    channel_count =
        u32 (length (keep (λ m. str_eq m.client_name row.client_name) db.model_mappings));
  }

  abbrev name_le : ModelRow F → ModelRow F → Bool
  name_le a b = text_le a.client_name b.client_name

  abbrev provider_le : ModelRow F → ModelRow F → Bool
  provider_le a b =
      text_lt a.provider_id b.provider_id || (str_eq a.provider_id b.provider_id && name_le a b)

  unfoldable pub list_models : Conn → Option String → Db F → Db F × Outcome (List (Model F))
  list_models conn (some provider) db = with_conn conn db (
      statement (conn.trouble 0) db (
        db,
        done (
            map (model_of db)
              (order_by name_le (keep (λ row. str_eq row.provider_id provider) db.models))),
      ))
  list_models conn none db = with_conn conn db (
      statement (conn.trouble 0) db (db, done (map (model_of db) (order_by provider_le db.models))))

  unfoldable pub get_model : Conn → String → Db F → Db F × Outcome (Option (Model F))
  get_model conn id db = with_conn conn db (
      statement (conn.trouble 0) db
        (db, done (map_option (model_of db) (find (λ row. str_eq row.id id) db.models))))
