-- ===== src/Core/Stats.antt =====
-- crates/core/src/compression.rs: what the layers of compression saved. Sums wrap at 64 bits, as in a
-- release build.
use agent_proxy_rust.Common.{ℕ, ◌+◌, ◌-◌, u64}
use agent_proxy_rust.Core.Types.{CompressionStats}

abbrev pub no_stats : CompressionStats
no_stats = record {
  tokenless_pre = 0;
  tokenless_post = 0;
  tokenless_experimental = 0;
  proxy_req_pre = 0;
  proxy_req_post = 0;
  proxy_res_pre = 0;
  proxy_res_post = 0;
  rtk_saved = 0;
}

abbrev pub tokenless_saved : CompressionStats → ℕ
tokenless_saved s = s.tokenless_pre - s.tokenless_post

abbrev pub proxy_schema_saved : CompressionStats → ℕ
proxy_schema_saved s = s.proxy_req_pre - s.proxy_req_post

abbrev pub proxy_response_saved : CompressionStats → ℕ
proxy_response_saved s = s.proxy_res_pre - s.proxy_res_post

unfoldable pub total_saved : CompressionStats → ℕ
total_saved s = u64 (
    u64 (
      u64 (u64 (tokenless_saved s + s.tokenless_experimental) + proxy_schema_saved s)
      + proxy_response_saved s)
    + s.rtk_saved)
