-- ===== src/Cost/Record/Laws.antt =====
-- The accounting of a cost record.
use agent_proxy_rust.Common.{ℕ, ◌+◌, ◌<◌, String, some, ◌≡◌, arith, ◌-◌}
use agent_proxy_rust.Core.Float.{Float}
use agent_proxy_rust.Core.Http.{Json}
use agent_proxy_rust.Core.Types.{
  ConnectionContext, CompressionStats, read, as_stats, ext_compression_stats,
}
use agent_proxy_rust.Router.Handler.{SelectedMappingInfo}
use agent_proxy_rust.Cost.Usage.{extract_usage}
use agent_proxy_rust.Cost.Record.{cost_record}

module _ {F V B : Type 0} (fl : Float F) (j : Json V B) (id timestamp : String) (now : ℕ)
    (user_name : String) (ctx : ConnectionContext (SelectedMappingInfo F) V) (body : V) where
  -- The record of a request whose context has statistics of compression balances: as long as no sum
  -- overflows, the tokens before compression are
  -- those that the upstream counted as input and output and those that were saved; and saved are
  -- what the hooks reported, by their total and by schema, response and rewriting, and what the
  -- layers of the proxy saved.
  pub cost_record-balances :
      (stats : CompressionStats)
      → read as_stats ext_compression_stats ctx ≡ some stats
      → let usage = extract_usage j body ctx.detected_format in
        let reported =
          ctx.tokenless_saved_tokens + ctx.tokenless_schema_saved + ctx.tokenless_response_saved
          + ctx.tokenless_rtk_saved in
        let layers =
          (stats.tokenless_pre - stats.tokenless_post)
          + stats.tokenless_experimental
          + (stats.proxy_req_pre - stats.proxy_req_post)
          + (stats.proxy_res_pre - stats.proxy_res_post)
          + stats.rtk_saved in
        usage.input_tokens + usage.output_tokens + reported + layers < 18446744073709551616
        → let r = cost_record fl j id timestamp now user_name ctx body in
          (r.after_tokens ≡ usage.input_tokens + usage.output_tokens)
          × (r.tokens_saved ≡ reported + layers)
          × (r.before_tokens ≡ r.after_tokens + r.tokens_saved)
  unfolding cost_record
  cost_record-balances stats found small = rw found (omega arith, omega arith, omega arith)
