-- ===== src/Storage/Db.antt =====
-- crates/storage-sqlite/migrations: the tables, each as the list of its rows. Two integer keys come
-- from `AUTOINCREMENT` counters. The tables that no statement of the program reads
-- (cost_records_daily, auth_keys) are left out.
use agent_proxy_rust.Common.{ℕ, String, List}
use agent_proxy_rust.Cost.Record.{CostRecord}
use agent_proxy_rust.Storage.Types.{Channel, ModelMapping, ModelAlias, SubscriptionFee, SwitchLog}

-- Rows that are read as a `Provider` and as a `Model`, with the time in seconds.
pub record ProviderRow : Type 0 where
  pub id : String
  pub name : String
  pub created_at : ℕ

pub record ModelRow (F : Type 0) : Type 0 where
  pub id : String
  pub provider_id : String
  pub client_name : String
  pub price_input : F
  pub price_output : F
  pub currency : String
  pub context_window : ℕ
  pub created_at : ℕ

pub record Db (F : Type 0) : Type 0 where
  pub providers : List ProviderRow
  pub models : List (ModelRow F)
  pub channels : List Channel
  pub model_mappings : List ModelMapping
  pub model_aliases : List ModelAlias
  pub next_alias_id : ℕ
  pub cost_records : List (CostRecord F)
  pub switch_logs : List SwitchLog
  pub subscription_fees : List (SubscriptionFee F)
  pub next_fee_id : ℕ
  pub user_version : ℕ
