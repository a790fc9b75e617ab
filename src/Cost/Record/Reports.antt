-- ===== src/Cost/Record/Reports.antt =====
-- How the savings that the hooks report reach the cost record: crates/core/src/report.rs,
-- crates/core/src/server.rs and crates/cost/src/lib.rs together.
use agent_proxy_rust.Common.{ℕ, ◌+◌, ◌-◌, Option, none, some}
use agent_proxy_rust.Core.Float.{Float}
use agent_proxy_rust.Core.Types.{CompressionStats}
use agent_proxy_rust.Core.Report.{TokenlessAccumulator}

-- The tokens that the layers of the proxy saved, by the statistics in the context.
abbrev pub layers_saved : Option CompressionStats → ℕ
layers_saved none = 0
layers_saved (some s) =
    (s.tokenless_pre - s.tokenless_post)
    + s.tokenless_experimental
    + (s.proxy_req_pre - s.proxy_req_post)
    + (s.proxy_res_pre - s.proxy_res_post)
    + s.rtk_saved

-- The tokens that the hooks saved, as the report that is consumed tells.
abbrev pub hooks_saved : TokenlessAccumulator → ℕ
hooks_saved acc = acc.rtk_saved + acc.response_saved + acc.schema_saved
