-- ===== src/App/Admin/Keys.antt =====
-- The handlers that set the key of a channel and that probe it.
pub mod Laws
use agent_proxy_rust.Core.Error.{◌<>◌}
use agent_proxy_rust.Common.{
  ℕ, String, Option, none, some, Bool, true, false, not, ◌||◌, List, [], ◌∷◌, Table, lookup, insert,
  get_or, if◌then◌else◌, str_eq, is_blank,
}
use agent_proxy_rust.Storage.Types.{Channel}
use agent_proxy_rust.Storage.Sql.{Conn, Outcome, delete_where}
use agent_proxy_rust.Storage.Db.{Db}
use agent_proxy_rust.Storage.Channels.{
  set_channel_api_key as store_channel_api_key, record_channel_failure as store_channel_failure,
  mark_channel_healthy as store_channel_healthy, get_channel as fetch_channel,
}
use agent_proxy_rust.Storage.Mappings.{list_mappings}
use agent_proxy_rust.Storage.Catalog.{list_models}
use agent_proxy_rust.Router.Health.{ChannelState, new_state, mark_unhealthy}
use agent_proxy_rust.App.Probe.{
  ProbeResponse, ProbeResult, no_models, no_protocols, is_healthy, probe_channel,
}
use agent_proxy_rust.App.Admin.Answers.{
  AdminState, Call, Outside, ApiResult, refused, json, storage_error, try_storage, found, with_db,
}

-- `DashMap::remove`.
abbrev pub remove : {V : Type 0} → String → Table V → Table V
remove key = delete_where λ entry. str_eq entry.0 key

-- `entry(id).or_default().mark_unhealthy()`.
unfoldable pub set_unhealthy : ℕ → String → Table ChannelState → Table ChannelState
set_unhealthy instant id health =
    insert id (mark_unhealthy instant (get_or new_state (lookup id health))) health

abbrev pub no_upstream : ProbeResult → Bool
no_upstream no_models = true
no_upstream no_protocols = true
no_upstream _ = false

module _ {F : Type 0} (out : Outside F) where
  -- The probe of a channel, which reads its mappings and the models.
  abbrev pub probe : Call → Db F → Channel → ProbeResponse
  probe call db channel =
      probe_channel out.float out.json.parse_protocols out.client
        (list_mappings (call.conn 5) channel.id db).1
        (list_models (λ seconds. "") (call.conn 6) none db).1 channel

  abbrev pub healed : Call → String → AdminState F → AdminState F
  healed call id st = record st {
    health_map = remove id st.health_map;
    db = (store_channel_healthy (call.conn 3) call.now id st.db).0;
  }

  abbrev pub fallen : Call → String → AdminState F → AdminState F
  fallen call id st = record st { health_map = set_unhealthy call.instant id st.health_map }

  -- What the probe of a new key does to the health: any result but a healthy one is a failure.
  abbrev pub after_key_probe : Call → String → ProbeResponse → AdminState F → AdminState F
  after_key_probe call id response st =
      if is_healthy response.result then healed call id st else fallen call id st

  abbrev pub key_probed :
      Call → String → AdminState F → Channel → AdminState F × ApiResult (Option ProbeResponse)
  key_probed call id st channel =
      let response = probe call st.db channel in
      (after_key_probe call id response st, json (some response))

  -- The answer's probe is `none` for an empty key.
  unfoldable pub set_channel_api_key :
      Call → String → String → AdminState F → AdminState F × ApiResult (Option ProbeResponse)
  set_channel_api_key call id key st =
      try_storage storage_error st (store_channel_api_key (call.conn 0) call.now id key st.db)
        λ st' done.
          if is_blank key
          then (
            record st' {
              api_key_map = remove id st'.api_key_map;
              health_map = set_unhealthy call.instant id st'.health_map;
              db = (store_channel_failure (call.conn 1) call.now call.later id st'.db).0;
            },
            json none,
          )
          else let keyed = record st' { api_key_map = insert id key st'.api_key_map } in
            try_storage storage_error keyed (fetch_channel (call.conn 2) id keyed.db)
              λ st'' channel. found ("channel " <> id) st'' channel (key_probed call id st'')

  -- The probe that is asked for: a channel that cannot be probed keeps its health.
  abbrev pub after_probe : Call → String → ProbeResponse → AdminState F → AdminState F
  after_probe call id response st =
      if is_healthy response.result
      then healed call id st
      else if not (no_upstream response.result)
      then fallen call id st
      else st

  abbrev pub probed :
      Call → String → AdminState F → Channel → AdminState F × ApiResult ProbeResponse
  probed call id st channel =
      let response = probe call st.db channel in (after_probe call id response st, json response)

  unfoldable pub probe_channel_handler :
      Call → String → AdminState F → AdminState F × ApiResult ProbeResponse
  probe_channel_handler call id st =
      try_storage storage_error st (fetch_channel (call.conn 2) id st.db)
        λ st' channel. found ("channel " <> id) st' channel (probed call id st')
