-- ===== src/Storage/Channels/Spec.antt =====
-- What the channel methods promise, without tables: a map from ids to rows that each call changes
-- at one id at most.
use agent_proxy_rust.Common.{
  ℕ, String, Option, none, some, Bool, ◌&&◌, List, [], ◌∷◌, if◌then◌else◌, map_option, is_none, ltb,
}
use agent_proxy_rust.Storage.Types.{Channel}
use agent_proxy_rust.Storage.Sql.{Conn}
use agent_proxy_rust.Storage.Db.{Db}
use agent_proxy_rust.Storage.Channels.{
  ChannelPatch, upsert_channel, set_channel_enabled, set_channel_api_key, update_channel,
  delete_channel, mark_channel_healthy, record_channel_failure, merge_channel, fresh_channel,
  enable_row, key_row, patch_channel, reset_row, bump_row, settle_row, binds,
}
use agent_proxy_rust.Storage.Channels.Laws.{Rows, change}

pub data ChannelCommand : Type 0 where
  upsert : Channel → ChannelCommand
  set_enabled : String → Bool → ChannelCommand
  set_api_key : String → String → ChannelCommand
  update : String → ChannelPatch → ChannelCommand
  delete : String → ChannelCommand
  heal : String → ChannelCommand
  fail : String → ChannelCommand

-- A call, with what the connection answers and the times that the call reads.
pub record Call : Type 0 where
  pub conn : Conn
  pub now : ℕ
  pub later : String
  pub command : ChannelCommand

module _ {F : Type 0} where
  unfoldable pub perform_with : Conn → ℕ → String → ChannelCommand → Db F → Db F
  perform_with conn now later (upsert ch) db = (upsert_channel conn now ch db).0
  perform_with conn now later (set_enabled id b) db = (set_channel_enabled conn now id b db).0
  perform_with conn now later (set_api_key id k) db = (set_channel_api_key conn now id k db).0
  perform_with conn now later (update id p) db = (update_channel conn now id p db).0
  perform_with conn now later (delete id) db = (delete_channel conn id db).0
  perform_with conn now later (heal id) db = (mark_channel_healthy conn now id db).0
  perform_with conn now later (fail id) db = (record_channel_failure conn now later id db).0

  -- The tables after a sequence of calls, whatever they answer.
  unfoldable pub run_calls : List Call → Db F → Db F
  run_calls [] db = db
  run_calls (c ∷ calls) db = run_calls calls (perform_with c.conn c.now c.later c.command db)

-- Whether the first statement of a call is carried out.
abbrev pub reaches : Conn → Bool
reaches conn = is_none conn.refused && is_none (conn.trouble 0)

-- A failure is counted, and the status follows the count if the later statements go through.
unfoldable pub failed_row : Conn → ℕ → String → Channel → Channel
failed_row conn now later row =
    let n = (bump_row now row).consecutive_failures in
    if is_none (conn.trouble 1) && (ltb n 2147483648 && is_none (conn.trouble 2))
    then settle_row later n (bump_row now row)
    else bump_row now row

abbrev pub upserted : ℕ → Channel → Option Channel → Channel
upserted now new none = fresh_channel now new
upserted now new (some old) = merge_channel now new old

unfoldable pub act : Conn → ℕ → String → ChannelCommand → Rows → Rows
act conn now later (upsert ch) rows =
    if binds ch.monthly_quota then change rows ch.id (some (upserted now ch (rows ch.id))) else rows
act conn now later (set_enabled id b) rows =
    change rows id (map_option (enable_row now b) (rows id))
act conn now later (set_api_key id k) rows = change rows id (map_option (key_row now k) (rows id))
act conn now later (update id p) rows = change rows id (map_option (patch_channel now p) (rows id))
act conn now later (delete id) rows = change rows id none
act conn now later (heal id) rows = change rows id (map_option (reset_row now) (rows id))
act conn now later (fail id) rows =
    change rows id (map_option (failed_row conn now later) (rows id))

-- The same calls, on a map.
unfoldable pub replay : List Call → Rows → Rows
replay [] rows = rows
replay (c ∷ calls) rows =
    replay calls (if reaches c.conn then act c.conn c.now c.later c.command rows else rows)
