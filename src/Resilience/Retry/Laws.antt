-- ===== src/Resilience/Retry/Laws.antt =====
-- The delays between retries, and which responses are sent back for a retry.
use native.Mathlib.Nat.{pow-le-pow_right, mod-eq_of_lt, mul-le-mul_left}
use agent_proxy_rust.Common.{
  ℕ, ◌*◌, ◌^◌, ◌≤◌, ◌<◌, ◌≡◌, refl, ◌↔◌, ◌⊎◌, some, arith, min, u32, get_or, ◌≢◌, duration_limit,
}
use agent_proxy_rust.Core.Error.{ok}
use agent_proxy_rust.Core.Http.{StatusClass, IsStatusClass}
use agent_proxy_rust.Core.Types.{ConnectionContext, ProxyResponse, read, as_number}
use agent_proxy_rust.Resilience.Retry.{
  RetryConfig, backoff_delay, on_response, ext_retryable, is_retryable,
}

-- Up to attempt 31 the delay is the base delay doubled for each attempt, cut at the maximum, and it
-- does not fall from one attempt to a later one.
pub backoff_delay_mono :
    (config : RetryConfig) (a b : ℕ)
    → a ≤ b
    → b < 32
    → config.base_delay * 2 ^ b < duration_limit
    → (x : ℕ) × (y : ℕ) × (backoff_delay a config ≡ some x)
      × (backoff_delay b config ≡ some y)
      × (y ≡ min (config.base_delay * 2 ^ b) config.max_delay)
      × (x ≤ y)
unfolding backoff_delay
backoff_delay_mono config a b le small fits =
    let grows : 2 ^ a ≤ 2 ^ b = pow-le-pow_right (omega arith) le in
    let top : 2 ^ b ≤ 2 ^ 31 = pow-le-pow_right (omega arith) {j = 31} (omega arith) in
    let scaled : config.base_delay * 2 ^ a ≤ config.base_delay * 2 ^ b = mul-le-mul_left _ grows in
    let same : u32 (2 ^ b) ≡ 2 ^ b = mod-eq_of_lt (omega arith) in
    let same' : u32 (2 ^ a) ≡ 2 ^ a = mod-eq_of_lt (omega arith) in
    (
      min (config.base_delay * 2 ^ a) config.max_delay,
      min (config.base_delay * 2 ^ b) config.max_delay,
      rw same' (ground arith),
      rw same (ground arith),
      refl,
      omega arith,
    )

module _ {M V H B : Type 0} (sc : StatusClass) (laws : IsStatusClass sc) (config : RetryConfig)
    (res : ProxyResponse H B) (ctx : ConnectionContext M V) where
  -- A response passes exactly when its status is neither 429 nor in the 500s, or the attempts
  -- recorded in the context have reached the maximum.
  pub on_response_passes_iff : (on_response sc config res ctx ≡ some (ok tt)) ↔ (
      ((res.status ≢ 429) × ¬ ((500 ≤ res.status) × (res.status < 600)))
      ⊎ (config.max_retries ≤ get_or 0 (read as_number ext_retryable ctx)))
  unfolding on_response is_retryable backoff_delay
  on_response_passes_iff = ground (arith, laws.server_range res.status)
