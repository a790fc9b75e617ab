-- ===== src/Storage/Integrity.antt =====
-- The invariant of the tables of channels and mappings; the child modules show that every method that
-- writes them keeps it.
pub mod Channels
pub mod Mappings
pub mod Runs
use agent_proxy_rust.Common.{
  ℕ, ◌≡◌, refl, sym, ap, ◌∙◌, String, Option, none, some, Bool, true, false, not, ◌&&◌, List, [],
  ◌∷◌, ◌++◌, if◌then◌else◌, str_eq, any, All, arith, eq_iff, Bool-cases, inl, inr, Option-cases,
  find, leb, ltb, All-append, subst,
}
use agent_proxy_rust.Storage.Types.{Channel, ModelMapping}
use agent_proxy_rust.Storage.Sql.{
  Outcome, failed, done, Conn, with_conn, statement, update_where, delete_where, upsert_where,
}
use agent_proxy_rust.Storage.Sql.Laws.{
  pooled-keeps, statement-keeps, if-keeps, keyed, Distinct, update_where-Distinct,
  delete_where-Distinct, append-Distinct, any-update_where, any-append_one,
}
use agent_proxy_rust.Storage.Sql.Order.{All-imply}
use agent_proxy_rust.Storage.Db.{Db}
use agent_proxy_rust.Storage.Channels.{
  has_id, updated, update_one, update_then_read, upsert_channel, set_channel_enabled,
  set_channel_api_key, update_channel, delete_channel, mark_channel_healthy, record_channel_failure,
  merge_channel, fresh_channel, enable_row, key_row, patch_channel, reset_row, bump_row, settle_row,
  binds, read_then_settle, settle_failure, stored, with_channels, ChannelPatch,
}
use agent_proxy_rust.Storage.Channels.Spec.{
  ChannelCommand, upsert, set_enabled, set_api_key, update, delete, heal, fail, perform_with,
}
use agent_proxy_rust.Storage.Channels.Refinement.{update_channel-tables}
use agent_proxy_rust.Storage.Mappings.{
  is_mapping, of_channel, upsert_mapping, write_mapping, set_mapping_enabled, delete_mapping,
  with_mappings,
}

-- A channel and a mapping have ids of their own, and every mapping is of a channel that exists.
pub record IsSound {F : Type 0} (db : Db F) : Type 0 where
  pub channel_ids : Distinct (λ ch. ch.id) db.channels
  pub mapping_ids : Distinct (λ m. m.id) db.model_mappings
  pub linked : All (λ m. any (has_id m.channel_id) db.channels ≡ true) db.model_mappings
