-- ===== src/Storage/Samples.antt =====
-- A small database and connection for the witnesses, with whole numbers as prices.
use agent_proxy_rust.Common.{
  ℕ, ◌+◌, String, none, true, false, List, [], ◌∷◌, refl, leb, if◌then◌else◌,
}
use agent_proxy_rust.Cost.Record.{CostRecord}
use agent_proxy_rust.Storage.Types.{Channel, ModelMapping, ModelAlias, TimeRange}
use agent_proxy_rust.Storage.Sql.{Conn}
use agent_proxy_rust.Storage.Db.{Db}
use agent_proxy_rust.Storage.Costs.{Engine}
use agent_proxy_rust.Storage.Channels.Health.{IsUp}

abbrev pub up : Conn
up = record {
  refused = none;
  trouble = λ n. none;
  foreign_keys = true;
  no_rows = "Query returned no rows";
  out_of_range = λ n. "out of range";
  foreign_key_failed = "FOREIGN KEY constraint failed";
  unique_failed = "UNIQUE constraint failed";
  integer_overflow = "integer overflow";
}

pub up-IsUp : IsUp up
up-IsUp = record { pool = refl; statements = λ n. refl }

abbrev pub row : String → ℕ → Channel
row id priority = record {
  id = id;
  name = "House";
  api_key = "key";
  protocol = "openai_chat";
  protocols = "[chat]";
  is_builtin = false;
  enabled = true;
  created_at = 1;
  updated_at = 1;
  health_status = "Healthy";
  cooldown_until = none;
  consecutive_failures = 0;
  billing_type = "metered";
  monthly_quota = none;
  quota_policy = "fallback";
  priority = priority;
  force_protocol = none;
}

abbrev pub mapping : String → String → ModelMapping
mapping id channel = record {
  id = id;
  channel_id = channel;
  client_name = "m";
  upstream_name = "m-large";
  billing = "metered";
  pricing_json = "{}";
  weight = 100;
  enabled = true;
  protocols = "[]";
}

abbrev pub alias : ModelAlias
alias = record {
  id = 1;
  alias_name = "gpt-5.5";
  target_model = "m";
  enabled = true;
  created_at = "2026-01-01";
  updated_at = "2026-01-01";
}

abbrev pub spent : String → String → ℕ → CostRecord ℕ
spent id time tokens = record {
  id = id;
  channel_id = "a";
  upstream_channel = "House";
  upstream_model = "m";
  request_time_ms = 5;
  project = "p";
  user_id = "u";
  agent_type = "codex";
  input_tokens = tokens;
  output_tokens = 1;
  cache_write_tokens = 0;
  cache_read_tokens = 0;
  thinking_tokens = 0;
  cost = 2;
  schema_saved_tokens = 1;
  response_saved_tokens = 0;
  rtk_saved_tokens = 0;
  pre_compress_tokens = tokens;
  post_compress_tokens = tokens;
  compression_tokens_saved = 0;
  unit = "USD";
  timestamp = time;
  pricing_snapshot_json = "";
  session_id = none;
  before_tokens = tokens;
  after_tokens = tokens;
  tokens_saved = 1;
  compression_breakdown_json = "[]";
}

abbrev pub db : Db ℕ
db = record {
  providers = [];
  models = [];
  channels = row "b" 2 ∷ row "a" 1 ∷ [];
  model_mappings = mapping "m1" "a" ∷ [];
  model_aliases = alias ∷ [];
  next_alias_id = 2;
  cost_records = spent "r1" "2026-01-05" 10 ∷ spent "r2" "2026-02-05" 20 ∷ [];
  switch_logs = [];
  subscription_fees = [];
  next_fee_id = 1;
  user_version = 1;
}

-- Times as years.
abbrev pub year : ℕ → String
year n = if leb n 1 then "2026" else "2027"

abbrev pub range : TimeRange
range = record { start = 1; finish = 2; project = none }

abbrev pub sum_whole : List ℕ → ℕ
sum_whole [] = 0
sum_whole (n ∷ ns) = n + sum_whole ns

abbrev pub engine : Engine ℕ
engine = record {
  sum_real = sum_whole;
  real_le = leb;
  bare = λ first others. first;
  scan = λ rows. rows;
}
