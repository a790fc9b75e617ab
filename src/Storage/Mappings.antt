-- ===== src/Storage/Mappings.antt =====
-- The mapping methods of crates/storage-sqlite/src/lib.rs, and the list of what a client can ask for.
use agent_proxy_rust.Core.Error.{◌<>◌}
use agent_proxy_rust.Common.{
  ℕ, suc, String, Option, none, some, Bool, true, not, ◌||◌, ◌&&◌, List, [], ◌∷◌, map,
  if◌then◌else◌, str_eq, any, keep, contains, is_empty,
}
use agent_proxy_rust.Storage.Types.{
  Channel, ModelMapping, AvailableModelInfo, AvailableChannelInfo, StorageError, backend, not_found,
}
use agent_proxy_rust.Storage.Sql.{
  Outcome, failed, done, Conn, with_conn, statement, update_where, delete_where, upsert_where,
  order_by, text_le, text_lt,
}
use agent_proxy_rust.Storage.Db.{Db}
use agent_proxy_rust.Storage.Channels.{has_id, priority_le}

abbrev pub is_mapping : String → ModelMapping → Bool
is_mapping id m = str_eq m.id id

abbrev pub of_channel : String → ModelMapping → Bool
of_channel id m = str_eq m.channel_id id

abbrev pub mapping_missing : String → StorageError
mapping_missing id = not_found ("mapping not found: " <> id)

-- The driver's text tells a broken reference from other errors.
unfoldable pub mapping_error : String → String → StorageError
mapping_error channel_id message =
    if contains message "FOREIGN KEY"
    then not_found ("channel not found: " <> channel_id)
    else backend message

-- `ORDER BY channel_id, client_name`.
abbrev pub channel_name_le : ModelMapping → ModelMapping → Bool
channel_name_le a b =
    text_lt a.channel_id b.channel_id
    || (str_eq a.channel_id b.channel_id && text_le a.client_name b.client_name)

abbrev pub model_info : ModelMapping → AvailableModelInfo
model_info m = record {
  mapping_id = m.id;
  client_name = m.client_name;
  upstream_name = m.upstream_name;
}

abbrev pub channel_info : Channel → List AvailableModelInfo → AvailableChannelInfo
channel_info ch models = record {
  channel_id = ch.id;
  channel_name = ch.name;
  protocol = ch.protocol;
  protocols = ch.protocols;
  health_status = ch.health_status;
  enabled = true;
  models = models;
}

-- The answer for one channel, before those for the others.
abbrev pub add_channel :
    Option String
    → Channel
    → List AvailableModelInfo
    → Outcome (List AvailableChannelInfo)
    → Outcome (List AvailableChannelInfo)
add_channel (some message) ch models rest = failed (backend message)
add_channel none ch models (failed e) = failed e
add_channel none ch models (done rest) =
    done (if is_empty models then rest else channel_info ch models ∷ rest)

module _ {F : Type 0} where
  abbrev pub with_mappings : Db F → List ModelMapping → Db F
  with_mappings db rows = record db { model_mappings = rows }

  unfoldable pub list_mappings : Conn → String → Db F → Db F × Outcome (List ModelMapping)
  list_mappings conn channel_id db = with_conn conn db (
      statement (conn.trouble 0) db (
        db,
        done (order_by (λ a b. text_le a.id b.id) (keep (of_channel channel_id) db.model_mappings)),
      ))

  unfoldable pub list_all_mappings : Conn → Db F → Db F × Outcome (List ModelMapping)
  list_all_mappings conn db =
      with_conn conn db
        (statement (conn.trouble 0) db (db, done (order_by channel_name_le db.model_mappings)))

  -- The one statement of `upsert_mapping`, with the engine's answer. A row that names no channel
  -- breaks the foreign key.
  abbrev pub write_mapping : Conn → Option String → ModelMapping → Db F → Db F × Outcome (Unit {0})
  write_mapping conn (some message) m db = (db, failed (mapping_error m.channel_id message))
  write_mapping conn none m db =
      if conn.foreign_keys && not (any (has_id m.channel_id) db.channels)
      then (db, failed (mapping_error m.channel_id conn.foreign_key_failed))
      else (
        with_mappings db (upsert_where (is_mapping m.id) (λ old. m) m db.model_mappings),
        done tt,
      )

  unfoldable pub upsert_mapping : Conn → ModelMapping → Db F → Db F × Outcome (Unit {0})
  upsert_mapping conn m db = with_conn conn db (write_mapping conn (conn.trouble 0) m db)

  unfoldable pub set_mapping_enabled : Conn → String → Bool → Db F → Db F × Outcome (Unit {0})
  set_mapping_enabled conn id enabled db = with_conn conn db (
      statement (conn.trouble 0) db (
        if any (is_mapping id) db.model_mappings
        then (
          with_mappings db (
              update_where (is_mapping id) (λ old. record old { enabled = enabled })
                db.model_mappings),
          done tt,
        )
        else (db, failed (mapping_missing id))))

  unfoldable pub delete_mapping : Conn → String → Db F → Db F × Outcome (Unit {0})
  delete_mapping conn id db = with_conn conn db (
      statement (conn.trouble 0) db (
        if any (is_mapping id) db.model_mappings
        then (with_mappings db (delete_where (is_mapping id) db.model_mappings), done tt)
        else (db, failed (mapping_missing id))))

  abbrev pub models_of : Db F → Channel → List AvailableModelInfo
  models_of db ch = map model_info (
      order_by (λ a b. text_le a.client_name b.client_name)
        (keep (λ m. of_channel ch.id m && m.enabled) db.model_mappings))

  -- The loop over the enabled channels: one without models is skipped.
  unfoldable pub gather : Conn → ℕ → Db F → List Channel → Outcome (List AvailableChannelInfo)
  gather conn n db [] = done []
  gather conn n db (ch ∷ chs) =
      add_channel (conn.trouble n) ch (models_of db ch) (gather conn (suc n) db chs)

  unfoldable pub list_available_channels : Conn → Db F → Db F × Outcome (List AvailableChannelInfo)
  list_available_channels conn db = with_conn conn db (
      statement (conn.trouble 0) db
        ((db, gather conn 1 db (order_by priority_le (keep (λ ch. ch.enabled) db.channels)))))
