-- ===== src/Cost/Record.antt =====
-- `CostMiddleware::record` of crates/cost/src/lib.rs. The storage is a parameter: `insert` answers
-- with the state of the storage and the message of an error. Sums of `u64` wrap, as in a release
-- build; `as i64` keeps the 64 bits, so a record has the numbers before that cast. `id` and
-- `timestamp` are what the generator and the clock give.
pub mod Laws
pub mod Reports
use agent_proxy_rust.Common.{
  ℕ, ◌+◌, ◌-◌, ◌/◌, String, Option, none, some, Bool, get_or, and_then, u64, min, is_some,
}
use agent_proxy_rust.Core.Error.{Result, ok, err, internal}
use agent_proxy_rust.Core.Float.{Float}
use agent_proxy_rust.Core.Http.{Json}
use agent_proxy_rust.Core.Stats.{tokenless_saved, proxy_schema_saved, proxy_response_saved}
use agent_proxy_rust.Core.Types.{
  ConnectionContext, CompressionStats, ChannelConfig, agent_name, read, as_mapping, as_channel,
  as_stats, ext_selected_mapping, ext_selected_channel, ext_compression_stats,
}
use agent_proxy_rust.Router.Handler.{SelectedMappingInfo}
use agent_proxy_rust.Cost.Usage.{Usage, extract_usage}
use agent_proxy_rust.Cost.Price.{calc_cost, zero_cost}

pub record CostRecord (F : Type 0) : Type 0 where
  pub id : String
  pub channel_id : String
  pub upstream_channel : String
  pub upstream_model : String
  pub request_time_ms : ℕ
  pub project : String
  pub user_id : String
  pub agent_type : String
  pub input_tokens : ℕ
  pub output_tokens : ℕ
  pub cache_write_tokens : ℕ
  pub cache_read_tokens : ℕ
  pub thinking_tokens : ℕ
  pub cost : F
  pub schema_saved_tokens : ℕ
  pub response_saved_tokens : ℕ
  pub rtk_saved_tokens : ℕ
  pub pre_compress_tokens : ℕ
  pub post_compress_tokens : ℕ
  pub compression_tokens_saved : ℕ
  pub unit : String
  pub timestamp : String
  pub pricing_snapshot_json : String
  pub session_id : Option String
  pub before_tokens : ℕ
  pub after_tokens : ℕ
  pub tokens_saved : ℕ
  pub compression_breakdown_json : String

-- `map_or(default, f)`.
abbrev pub map_or : {A B : Type 0} → B → (A → B) → Option A → B
map_or b f none = b
map_or b f (some a) = f a

-- The tokens that each layer saved.
pub record Savings : Type 0 where
  pub schema_saved : ℕ
  pub response_saved : ℕ
  pub rtk : ℕ
  pub compression_saved : ℕ

module _ {M V : Type 0} where
  abbrev pub savings : ConnectionContext M V → Option CompressionStats → Savings
  savings ctx stats =
      let schema = u64 (ctx.tokenless_schema_saved + map_or 0 proxy_schema_saved stats) in
      let response = u64 (ctx.tokenless_response_saved + map_or 0 proxy_response_saved stats) in
      let rtk = u64 (ctx.tokenless_rtk_saved + map_or 0 (λ s. s.rtk_saved) stats) in
      record {
        schema_saved = schema;
        response_saved = response;
        rtk = rtk;
        compression_saved = u64 (
            u64 (
              u64 (
                u64
                  (map_or 0 tokenless_saved stats + map_or 0 (λ s. s.tokenless_experimental) stats)
                + schema)
              + response)
            + rtk);
      }

module _ {F V B : Type 0} (fl : Float F) (j : Json V B) where
  abbrev pub price_of : Usage → Option (SelectedMappingInfo F) → F × String
  price_of usage info = elim (and_then info λ m. m.pricing) [
    | some pricing ↦ calc_cost fl usage pricing
    | none ↦ (zero_cost fl, "USD")
  ]

  -- The record of a request, by what the context has of it.
  unfoldable pub cost_record :
      String → String → ℕ → String → ConnectionContext (SelectedMappingInfo F) V → V → CostRecord F
  cost_record id timestamp now user_name ctx body =
      let info = read as_mapping ext_selected_mapping ctx in
      let stats = read as_stats ext_compression_stats ctx in
      let usage = extract_usage j body ctx.detected_format in
      let (cost, unit) = price_of usage info in
      let s = savings ctx stats in
      let after = u64 (usage.input_tokens + usage.output_tokens) in
      let total = u64 (ctx.tokenless_saved_tokens + s.compression_saved) in
      record {
        id = id;
        channel_id = map_or "" (λ m. m.channel_id) info;
        upstream_channel = map_or "" (λ c. c.name) (read as_channel ext_selected_channel ctx);
        upstream_model = map_or "" (λ m. m.upstream_name) info;
        request_time_ms = min ((now - ctx.started_at) / 1_000_000) 9_223_372_036_854_775_807;
        project = get_or "" ctx.project_path;
        user_id = get_or user_name ctx.user_name;
        agent_type = agent_name ctx.agent_type;
        input_tokens = usage.input_tokens;
        output_tokens = usage.output_tokens;
        cache_write_tokens = usage.cache_write_tokens;
        cache_read_tokens = usage.cache_read_tokens;
        thinking_tokens = usage.thinking_tokens;
        cost = cost;
        schema_saved_tokens = s.schema_saved;
        response_saved_tokens = s.response_saved;
        rtk_saved_tokens = s.rtk;
        pre_compress_tokens = map_or 0 (λ t. u64 (t.tokenless_pre + t.proxy_req_pre)) stats;
        post_compress_tokens = map_or 0 (λ t. u64 (t.tokenless_post + t.proxy_req_post)) stats;
        compression_tokens_saved = s.compression_saved;
        unit = unit;
        timestamp = timestamp;
        pricing_snapshot_json = map_or "" (λ m. m.pricing_snapshot_json) info;
        session_id = ctx.session_id;
        before_tokens = u64 (after + total);
        after_tokens = after;
        tokens_saved = total;
        compression_breakdown_json = get_or "" ctx.tokenless_breakdown_json;
      }

  unfoldable pub store_record :
      {S : Type 0}
      → (CostRecord F → S → S × Option String)
      → CostRecord F
      → S
      → S × Result (Unit {0})
  store_record insert_cost_record r s =
      let (after, refusal) = insert_cost_record r s in
      (after, elim refusal [ none ↦ ok tt | some e ↦ err (internal e) ])
