-- ===== src/App/Admin/Channels.antt =====
-- The handlers of channels, mappings and aliases, the health summary and the compression toggle.
pub mod Laws
use agent_proxy_rust.Core.Error.{◌<>◌}
use agent_proxy_rust.Common.{
  ℕ, String, Option, none, some, Bool, true, false, not, ◌&&◌, List, [], ◌∷◌, map, if◌then◌else◌,
  str_eq, any, find, keep, get_or, length, min,
}
use agent_proxy_rust.Storage.Types.{
  Channel, ModelMapping, ModelAlias, ModelAliasRequest, healthy, as_str,
}
use agent_proxy_rust.Storage.Sql.{Conn, Outcome, failed, done}
use agent_proxy_rust.Storage.Db.{Db}
use agent_proxy_rust.Storage.Channels.{
  ChannelPatch, get_channel as fetch_channel, update_channel as store_channel,
  delete_channel as erase_channel, list_channels, mark_channel_healthy as store_channel_healthy,
  record_channel_failure as store_channel_failure,
}
use agent_proxy_rust.Storage.Mappings.{upsert_mapping, delete_mapping, list_all_mappings}
use agent_proxy_rust.Storage.Aliases.{upsert_model_alias, delete_model_alias}
use agent_proxy_rust.Storage.Lifecycle.{health_check}
use agent_proxy_rust.Router.Protocol.{ProtocolEntry}
use agent_proxy_rust.App.Admin.Answers.{
  AdminState, Call, Outside, ApiResult, AppError, refused, json, app_error, storage_error,
  or_missing, try_storage, found, with_db, reload_channels,
}

pub record ChannelProtocolsResponse : Type 0 where
  pub channel_id : String
  pub channel_name : String
  pub protocols : List ProtocolEntry

pub record UpdateMappingBody : Type 0 where
  pub upstream_name : Option String
  pub client_name : Option String
  pub billing : Option String
  pub pricing_json : Option String
  pub weight : Option ℕ
  pub enabled : Option Bool
  pub protocols : Option String

unfoldable pub patch_mapping : UpdateMappingBody → ModelMapping → ModelMapping
patch_mapping body m = record m {
  upstream_name = get_or m.upstream_name body.upstream_name;
  client_name = get_or m.client_name body.client_name;
  billing = get_or m.billing body.billing;
  pricing_json = get_or m.pricing_json body.pricing_json;
  weight = get_or m.weight body.weight;
  enabled = get_or m.enabled body.enabled;
  protocols = get_or m.protocols body.protocols;
}

pub record AdminHealth : Type 0 where
  pub healthy : Bool
  pub healthy_channels : ℕ
  pub total_channels : ℕ

-- `unwrap_or`.
abbrev pub done_or : {A : Type 0} → A → Outcome A → A
done_or d (failed e) = d
done_or d (done a) = a

abbrev pub u32_max : ℕ
u32_max = 4294967295

abbrev pub supports : String → List ProtocolEntry → Bool
supports wanted entries = any (λ e. str_eq e.protocol wanted) entries

module _ {F : Type 0} (out : Outside F) where
  unfoldable pub get_channel : Call → String → AdminState F → AdminState F × ApiResult Channel
  get_channel call id st =
      try_storage storage_error st (fetch_channel (call.conn 0) id st.db)
        λ st' channel. found ("channel " <> id) st' channel λ ch. (st', json ch)

  -- The check of a forced protocol against the text of the protocols.
  abbrev pub check_entries : String → String → Option (List ProtocolEntry) → Option AppError
  check_entries wanted text none =
      some (app_error 400 "bad_request" ("invalid protocols JSON: " <> out.json_error text))
  check_entries wanted text (some entries) =
      if not (supports wanted entries)
      then some (
          app_error 400 "bad_request" (
            "force_protocol '"
            <> wanted
            <> "' not found in channel protocols. Supported: "
            <> out.print_list (map (λ e. e.protocol) entries)))
      else none

  abbrev pub check_text : String → String → Option AppError
  check_text wanted text = check_entries wanted text (out.json.parse_protocols text)

  abbrev pub refuse_or :
      {A : Type 0}
      → Option AppError
      → AdminState F
      → AdminState F × ApiResult A
      → AdminState F × ApiResult A
  refuse_or none st next = next
  refuse_or (some e) st next = (st, refused e)

  -- The update itself, and the reload after it.
  abbrev pub write_channel :
      Call → String → ChannelPatch → AdminState F → AdminState F × ApiResult Channel
  write_channel call id body st =
      try_storage (or_missing ("channel " <> id)) st
        (store_channel (call.conn 1) call.now id body st.db)
        λ st' updated. (reload_channels out call st', json updated)

  -- The protocols to check against: the new ones, or else those of the stored channel.
  abbrev pub check_forced :
      Option String
      → Option String
      → Call
      → String
      → AdminState F
      → (AdminState F → AdminState F × ApiResult Channel)
      → AdminState F × ApiResult Channel
  check_forced none protocols call id st next = next st
  check_forced (some wanted) (some text) call id st next =
      refuse_or (check_text wanted text) st (next st)
  check_forced (some wanted) none call id st next =
      try_storage storage_error st (fetch_channel (call.conn 0) id st.db) λ st' channel.
        found ("channel " <> id) st' channel
          λ current. refuse_or (check_text wanted current.protocols) st' (next st')

  unfoldable pub update_channel :
      Call → String → ChannelPatch → AdminState F → AdminState F × ApiResult Channel
  update_channel call id body st =
      check_forced body.force_protocol body.protocols call id st (write_channel call id body)

  unfoldable pub delete_channel : Call → String → AdminState F → AdminState F × ApiResult Bool
  delete_channel call id st =
      try_storage (or_missing ("channel " <> id)) st (erase_channel (call.conn 0) id st.db)
        λ st' done. (reload_channels out call st', json true)

  abbrev pub parsed_protocols :
      AdminState F
      → Channel
      → Option (List ProtocolEntry)
      → AdminState F × ApiResult ChannelProtocolsResponse
  parsed_protocols st ch none = (
    st,
    refused (
        app_error 500 "internal_error"
          ("failed to parse protocols JSON: " <> out.json_error ch.protocols)),
  )
  parsed_protocols st ch (some entries) =
      (st, json (record { channel_id = ch.id; channel_name = ch.name; protocols = entries }))

  unfoldable pub get_channel_protocols :
      Call → String → AdminState F → AdminState F × ApiResult ChannelProtocolsResponse
  get_channel_protocols call id st =
      try_storage storage_error st (fetch_channel (call.conn 0) id st.db) λ st' channel.
        found ("channel " <> id) st' channel
          λ ch. parsed_protocols st' ch (out.json.parse_protocols ch.protocols)

  unfoldable pub mark_channel_healthy : Call → String → AdminState F → AdminState F × ApiResult Bool
  mark_channel_healthy call id st =
      try_storage storage_error st (store_channel_healthy (call.conn 0) call.now id st.db)
        λ st' done. (st', json true)

  unfoldable pub record_channel_failure :
      Call → String → AdminState F → AdminState F × ApiResult Bool
  record_channel_failure call id st =
      try_storage storage_error st
        (store_channel_failure (call.conn 0) call.now call.later id st.db)
        λ st' done. (st', json true)

  unfoldable pub create_model_mapping :
      Call → ModelMapping → AdminState F → AdminState F × ApiResult ModelMapping
  create_model_mapping call m st =
      try_storage storage_error st (upsert_mapping (call.conn 0) m st.db)
        λ st' done. (reload_channels out call st', json m)

  unfoldable pub update_model_mapping :
      Call → String → UpdateMappingBody → AdminState F → AdminState F × ApiResult Bool
  update_model_mapping call id body st =
      try_storage storage_error st (list_all_mappings (call.conn 0) st.db) λ st' mappings.
        found ("mapping " <> id) st' (find (λ m. str_eq m.id id) mappings) λ existing.
          try_storage storage_error st'
            (upsert_mapping (call.conn 1) (patch_mapping body existing) st'.db)
            λ st'' done. (reload_channels out call st'', json true)

  unfoldable pub delete_model_mapping : Call → String → AdminState F → AdminState F × ApiResult Bool
  delete_model_mapping call id st =
      try_storage (or_missing ("mapping " <> id)) st (delete_mapping (call.conn 0) id st.db)
        λ st' done. (reload_channels out call st', json true)

  -- The aliases of the running middleware are not told.
  unfoldable pub create_model_alias :
      Call → String → ModelAliasRequest → AdminState F → AdminState F × ApiResult ModelAlias
  create_model_alias call datetime request st =
      try_storage storage_error st (upsert_model_alias (call.conn 0) datetime request st.db)
        λ st' alias. (st', json alias)

  unfoldable pub delete_model_alias_handler :
      (ℕ → String) → Call → ℕ → AdminState F → AdminState F × ApiResult Bool
  delete_model_alias_handler print_id call id st =
      try_storage (or_missing ("alias " <> print_id id)) st
        (delete_model_alias print_id (call.conn 0) id st.db) λ st' done. (st', json true)

  -- Storage errors count as an unhealthy storage and as no channels.
  unfoldable pub admin_health : Call → AdminState F → AdminState F × ApiResult AdminHealth
  admin_health call st =
      let channels = done_or [] (list_channels (call.conn 1) none st.db).1 in
      (
        st,
        json (record {
          healthy = done_or false (health_check (call.conn 0) st.db).1;
          healthy_channels =
              min
                (length (keep (λ c. c.enabled && str_eq c.health_status (as_str healthy)) channels))
                u32_max;
          total_channels = min (length channels) u32_max;
        }),
      )

  unfoldable pub compress_toggle : Bool → AdminState F → AdminState F × ApiResult Bool
  compress_toggle enabled st = (record st { compress_enabled = enabled }, json enabled)

  unfoldable pub compress_status : AdminState F → AdminState F × ApiResult Bool
  compress_status st = (st, json st.compress_enabled)
