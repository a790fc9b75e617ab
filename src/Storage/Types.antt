-- ===== src/Storage/Types.antt =====
-- crates/storage/src/types.rs and error.rs: the records of the storage interface and its errors. A
-- `SecretString` is its text. `i64` fields that hold times of day and `i64` counters that only grow
-- are naturals. `F` is the type of `f64`.
use agent_proxy_rust.Common.{ℕ, String, Option, Bool, ◌||◌, List, is_blank, str_eq, Table}

pub data ChannelHealthStatus : Type 0 where
  healthy degraded cooldown unavailable : ChannelHealthStatus

unfoldable pub as_str : ChannelHealthStatus → String
as_str healthy = "Healthy"
as_str degraded = "Degraded"
as_str cooldown = "Cooldown"
as_str unavailable = "Unavailable"

pub record Provider : Type 0 where
  pub id : String
  pub name : String
  pub created_at : String

pub record Model (F : Type 0) : Type 0 where
  pub id : String
  pub provider_id : String
  pub client_name : String
  pub price_input : F
  pub price_output : F
  pub currency : String
  pub context_window : ℕ
  pub created_at : String
  pub channel_count : ℕ

pub record Channel : Type 0 where
  pub id : String
  pub name : String
  pub api_key : String
  pub protocol : String
  pub protocols : String
  pub is_builtin : Bool
  pub enabled : Bool
  pub created_at : ℕ
  pub updated_at : ℕ
  pub health_status : String
  pub cooldown_until : Option String
  pub consecutive_failures : ℕ
  pub billing_type : String
  pub monthly_quota : Option ℕ
  pub quota_policy : String
  pub priority : ℕ
  pub force_protocol : Option String

pub record ModelMapping : Type 0 where
  pub id : String
  pub channel_id : String
  pub client_name : String
  pub upstream_name : String
  pub billing : String
  pub pricing_json : String
  pub weight : ℕ
  pub enabled : Bool
  pub protocols : String

unfoldable pub is_empty_protocols : String → Bool
is_empty_protocols s = is_blank s || str_eq s "[]"

pub record SubscriptionFee (F : Type 0) : Type 0 where
  pub id : ℕ
  pub channel_name : String
  pub month : String
  pub monthly_price : F
  pub currency : String

pub record SwitchLog : Type 0 where
  pub id : String
  pub from_channel_id : String
  pub to_channel_id : String
  pub reason : String
  pub cost_record_id : Option String
  pub created_at : String

pub record TimeRange : Type 0 where
  pub start : ℕ
  pub finish : ℕ
  pub project : Option String

pub record CostFilter : Type 0 where
  pub project_path : Option String
  pub model_name : Option String
  pub channel_name : Option String
  pub time_range : Option TimeRange
  pub limit : Option ℕ
  pub offset : Option ℕ

pub data CostGroupBy : Type 0 where
  by_project by_model by_channel project_model_month project_model_hour hourly daily : CostGroupBy

pub record CostAggregate (F : Type 0) : Type 0 where
  pub group_key : String
  pub total_input_tokens : ℕ
  pub total_output_tokens : ℕ
  pub total_actual_cost : F
  pub total_compression_tokens_saved : ℕ
  pub request_count : ℕ

pub record AvailableModelInfo : Type 0 where
  pub mapping_id : String
  pub client_name : String
  pub upstream_name : String

pub record AvailableChannelInfo : Type 0 where
  pub channel_id : String
  pub channel_name : String
  pub protocol : String
  pub protocols : String
  pub health_status : String
  pub enabled : Bool
  pub models : List AvailableModelInfo

pub record ModelAlias : Type 0 where
  pub id : ℕ
  pub alias_name : String
  pub target_model : String
  pub enabled : Bool
  pub created_at : String
  pub updated_at : String

pub record ModelAliasRequest : Type 0 where
  pub alias_name : String
  pub target_model : String
  pub enabled : Bool

pub record SeedEntryStatus : Type 0 where
  pub name : String
  pub local_sha256 : Option String
  pub remote_sha256 : Option String
  pub changed : Bool

pub record SeedStatus : Type 0 where
  pub local_version : ℕ
  pub remote_version : Option ℕ
  pub update_available : Bool
  pub source : String
  pub entries : List SeedEntryStatus
  pub last_refresh_at : Option String
  pub last_error : Option String

pub record SeedManifestEntry : Type 0 where
  pub file : String
  pub sha256 : String

pub record SeedManifest : Type 0 where
  pub version : ℕ
  pub min_schema_version : ℕ
  pub updated_at : String
  pub entries : Table SeedManifestEntry

pub data StorageError : Type 0 where
  backend : String → StorageError
  not_found : String → StorageError
  duplicate : String → StorageError
  connection : String → StorageError
  migration : String → StorageError
