-- ===== src/Storage/Channels.antt =====
-- The channel methods of crates/storage-sqlite/src/lib.rs. `now` is `now_unix()`, and `later` the
-- time five minutes from now as text.
pub mod Laws
pub mod Spec
pub mod Refinement
pub mod Health
pub mod Listing
pub mod Replies
use agent_proxy_rust.Core.Error.{◌<>◌}
use agent_proxy_rust.Common.{
  ℕ, ◌+◌, String, Option, none, some, Bool, true, false, not, ◌||◌, ◌&&◌, List, map, is_blank,
  if◌then◌else◌, ltb, leb, ◌==◌, str_eq, any, find, keep, get_or, min, is_some, or_else,
}
use agent_proxy_rust.Storage.Types.{
  Channel, ModelMapping, ChannelHealthStatus, healthy, degraded, cooldown, unavailable, as_str,
  StorageError, backend, not_found,
}
use agent_proxy_rust.Storage.Sql.{
  Outcome, failed, done, Conn, with_conn, statement, update_where, delete_where, upsert_where,
  order_by, text_le,
}
use agent_proxy_rust.Storage.Db.{Db}

-- A channel without a key reads as unavailable, whatever its row says.
unfoldable pub row_to_channel : Channel → Channel
row_to_channel row = record row {
  health_status = if is_blank row.api_key then as_str unavailable else row.health_status;
}

abbrev pub has_id : String → Channel → Bool
has_id id ch = str_eq ch.id id

-- `ORDER BY priority, id` and `ORDER BY id`.
abbrev pub priority_le : Channel → Channel → Bool
priority_le a b = ltb a.priority b.priority || (a.priority == b.priority && text_le a.id b.id)

abbrev pub id_le : Channel → Channel → Bool
id_le a b = text_le a.id b.id

-- `i64::MAX`.
abbrev pub i64_max : ℕ
i64_max = 9223372036854775807

-- The row that `ON CONFLICT(id) DO UPDATE` makes of the stored row and of the given one.
unfoldable pub merge_channel : ℕ → Channel → Channel → Channel
merge_channel now new old = record old {
  name = new.name;
  api_key = if not (is_blank new.api_key) then new.api_key else old.api_key;
  protocol = new.protocol;
  protocols = new.protocols;
  is_builtin = new.is_builtin;
  enabled = new.enabled;
  updated_at = now;
  health_status = new.health_status;
  billing_type = new.billing_type;
  monthly_quota = new.monthly_quota;
  quota_policy = new.quota_policy;
  priority = new.priority;
  force_protocol = new.force_protocol;
}

-- The row that the insertion makes: the columns that it does not name have their defaults.
unfoldable pub fresh_channel : ℕ → Channel → Channel
fresh_channel now new = record new {
  created_at = now;
  updated_at = now;
  cooldown_until = none;
  consecutive_failures = 0;
}

-- What a channel becomes after so many failures.
unfoldable pub status_of_failures : ℕ → ChannelHealthStatus
status_of_failures failures =
    if leb 3 failures then cooldown else if leb 1 failures then degraded else healthy

abbrev pub cooldown_of_failures : ℕ → String → Option String
cooldown_of_failures failures later = if leb 3 failures then some later else none

-- The optional columns of `update_channel`.
pub record ChannelPatch : Type 0 where
  pub name : Option String
  pub enabled : Option Bool
  pub priority : Option ℕ
  pub monthly_quota : Option ℕ
  pub quota_policy : Option String
  pub protocols : Option String
  pub force_protocol : Option String

unfoldable pub patch_channel : ℕ → ChannelPatch → Channel → Channel
patch_channel now patch old = record old {
  updated_at = now;
  name = get_or old.name patch.name;
  enabled = get_or old.enabled patch.enabled;
  priority = get_or old.priority patch.priority;
  monthly_quota = elim patch.monthly_quota [
    | none ↦ old.monthly_quota
    | some q ↦ some (min q i64_max)
  ];
  quota_policy = get_or old.quota_policy patch.quota_policy;
  protocols = get_or old.protocols patch.protocols;
  force_protocol = or_else patch.force_protocol old.force_protocol;
}

abbrev pub read_row : Option Channel → Option Channel
read_row none = none
read_row (some row) = some (row_to_channel row)

-- A quota beyond `i64` cannot be bound to a column.
abbrev pub binds : Option ℕ → Bool
binds none = true
binds (some q) = leb q i64_max

abbrev pub channel_missing : String → StorageError
channel_missing id = not_found ("channel not found: " <> id)

-- The two updates of `record_channel_failure`.
unfoldable pub bump_row : ℕ → Channel → Channel
bump_row now old = record old {
  consecutive_failures = old.consecutive_failures + 1;
  updated_at = now;
}

unfoldable pub settle_row : String → ℕ → Channel → Channel
settle_row later n old = record old {
  health_status = as_str (status_of_failures n);
  cooldown_until = cooldown_of_failures n later;
}

unfoldable pub reset_row : ℕ → Channel → Channel
reset_row now old = record old {
  health_status = as_str healthy;
  cooldown_until = none;
  consecutive_failures = 0;
  updated_at = now;
}

unfoldable pub enable_row : ℕ → Bool → Channel → Channel
enable_row now enabled old = record old { enabled = enabled; updated_at = now }

unfoldable pub key_row : ℕ → String → Channel → Channel
key_row now key old = record old { api_key = key; updated_at = now }

module _ {F : Type 0} where
  abbrev pub with_channels : Db F → List Channel → Db F
  with_channels db rows = record db { channels = rows }

  unfoldable pub list_channels : Conn → Option String → Db F → Db F × Outcome (List Channel)
  list_channels conn none db = with_conn conn db (
      statement (conn.trouble 0) db
        (db, done (map row_to_channel (order_by priority_le db.channels))))
  list_channels conn (some model_id) db = with_conn conn db (
      statement (conn.trouble 0) db (
        db,
        done (
            map row_to_channel (
              order_by id_le (
                keep
                  (λ ch.
                    any (λ m. str_eq m.client_name model_id && str_eq m.channel_id ch.id)
                      db.model_mappings)
                  db.channels))),
      ))

  abbrev pub stored : String → Db F → Option Channel
  stored id db = find (has_id id) db.channels

  unfoldable pub get_channel : Conn → String → Db F → Db F × Outcome (Option Channel)
  get_channel conn id db =
      with_conn conn db (statement (conn.trouble 0) db (db, done (read_row (stored id db))))

  unfoldable pub upsert_channel : Conn → ℕ → Channel → Db F → Db F × Outcome (Unit {0})
  upsert_channel conn now new db = with_conn conn db (
      if binds new.monthly_quota
      then statement (conn.trouble 0) db (
        with_channels db (
            upsert_where (has_id new.id) (merge_channel now new) (fresh_channel now new)
              db.channels),
        done tt,
      )
      else (db, failed (backend (conn.out_of_range 9))))

  abbrev pub updated : String → (Channel → Channel) → Db F → Db F
  updated id f db = with_channels db (update_where (has_id id) f db.channels)

  -- One `UPDATE … WHERE id = ?`: no row is an error.
  abbrev pub update_one : Conn → String → (Channel → Channel) → Db F → Db F × Outcome (Unit {0})
  update_one conn id f db = with_conn conn db (
      statement (conn.trouble 0) db (
        if any (has_id id) db.channels
        then (updated id f db, done tt)
        else (db, failed (channel_missing id))))

  unfoldable pub set_channel_enabled : Conn → ℕ → String → Bool → Db F → Db F × Outcome (Unit {0})
  set_channel_enabled conn now id enabled = update_one conn id (enable_row now enabled)

  unfoldable pub set_channel_api_key : Conn → ℕ → String → String → Db F → Db F × Outcome (Unit {0})
  set_channel_api_key conn now id key = update_one conn id (key_row now key)

  unfoldable pub mark_channel_healthy : Conn → ℕ → String → Db F → Db F × Outcome (Unit {0})
  mark_channel_healthy conn now id = update_one conn id (reset_row now)

  -- The row that `query_row` reads back.
  abbrev pub read_back : Conn → Option Channel → Db F → Db F × Outcome Channel
  read_back conn none db = (db, failed (backend conn.no_rows))
  read_back conn (some row) db = (db, done (row_to_channel row))

  abbrev pub update_then_read : Conn → String → Db F → Db F × Outcome Channel
  update_then_read conn id db = statement (conn.trouble 1) db (read_back conn (stored id db) db)

  unfoldable pub update_channel : Conn → ℕ → String → ChannelPatch → Db F → Db F × Outcome Channel
  update_channel conn now id patch db = with_conn conn db (
      statement (conn.trouble 0) db (
        if any (has_id id) db.channels
        then update_then_read conn id (updated id (patch_channel now patch) db)
        else (db, failed (channel_missing id))))

  -- `ON DELETE CASCADE` takes the mappings of the channel along.
  unfoldable pub delete_channel : Conn → String → Db F → Db F × Outcome (Unit {0})
  delete_channel conn id db = with_conn conn db (
      statement (conn.trouble 0) db (
        if any (has_id id) db.channels
        then (
          record db {
            channels = delete_where (has_id id) db.channels;
            model_mappings =
                if conn.foreign_keys
                then delete_where (λ m. str_eq m.channel_id id) db.model_mappings
                else db.model_mappings;
          },
          done tt,
        )
        else (db, failed (channel_missing id))))

  -- The third statement of `record_channel_failure`, on the row that the second one reads.
  abbrev pub settle_failure :
      Conn → String → String → Option Channel → Db F → Db F × Outcome (Unit {0})
  settle_failure conn later id none db = (db, failed (backend conn.no_rows))
  settle_failure conn later id (some row) db =
      let n = row.consecutive_failures in
      if ltb n 2147483648
      then statement (conn.trouble 2) db (updated id (settle_row later n) db, done tt)
      else (db, failed (backend (conn.out_of_range n)))

  abbrev pub read_then_settle : Conn → String → String → Db F → Db F × Outcome (Unit {0})
  read_then_settle conn later id db =
      statement (conn.trouble 1) db (settle_failure conn later id (stored id db) db)

  unfoldable pub record_channel_failure :
      Conn → ℕ → String → String → Db F → Db F × Outcome (Unit {0})
  record_channel_failure conn now later id db = with_conn conn db (
      statement (conn.trouble 0) db (read_then_settle conn later id (updated id (bump_row now) db)))
