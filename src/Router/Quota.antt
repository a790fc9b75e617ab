-- ===== src/Router/Quota.antt =====
-- `QuotaUsage` of crates/model-router/src/types.rs. `month` is the month key that the clock shows;
-- the counters are `u64`.
pub mod Laws
mod Tests
use agent_proxy_rust.Common.{
  ℕ, ◌+◌, ◌*◌, Option, none, some, Bool, true, if◌then◌else◌, ltb, ◌==◌, get_or, u32, u64,
}
use agent_proxy_rust.Router.Billing.{Quota, unlimited, max_requests, max_tokens}

pub record QuotaUsage : Type 0 where
  pub requests_this_month : ℕ
  pub tokens_this_month : ℕ
  pub month_key : ℕ

-- `none` is a year that is negative.
abbrev pub current_month_key : Option ℕ → ℕ → ℕ
current_month_key year month = u32 (u32 (get_or 2026 year * 12) + month)

abbrev pub new_usage : ℕ → QuotaUsage
new_usage month = record { requests_this_month = 0; tokens_this_month = 0; month_key = month }

unfoldable pub maybe_reset : ℕ → QuotaUsage → QuotaUsage
maybe_reset month u = if month == u.month_key then u else new_usage month

unfoldable pub record_usage : ℕ → ℕ → QuotaUsage → QuotaUsage
record_usage month tokens u =
    let u' = maybe_reset month u in
    record u' {
      requests_this_month = u64 (u'.requests_this_month + 1);
      tokens_this_month = u64 (u'.tokens_this_month + tokens);
    }

unfoldable pub is_within_quota : Option Quota → QuotaUsage → Bool
is_within_quota none u = true
is_within_quota (some unlimited) u = true
is_within_quota (some (max_requests per_month)) u = ltb u.requests_this_month per_month
is_within_quota (some (max_tokens per_month)) u = ltb u.tokens_this_month per_month
