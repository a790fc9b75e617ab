-- ===== src/Resilience/Retry.antt =====
-- crates/resilience/src/retry.rs. A delay that is no `Duration` is a panic, which is `none`.
-- `2u32.pow` wraps in a release build.
pub mod Laws
mod Tests
use agent_proxy_rust.Common.{
  ℕ, ◌*◌, ◌^◌, Option, none, some, Bool, ◌||◌, if◌then◌else◌, ltb, min, get_or, u32, map_option,
  ◌==◌, String, times,
}
use agent_proxy_rust.Core.Error.{Result, ok, err, rate_limited}
use agent_proxy_rust.Core.Http.{StatusClass}
use agent_proxy_rust.Core.Types.{ConnectionContext, ProxyResponse, read, as_number}

pub record RetryConfig : Type 0 where
  pub max_retries : ℕ
  pub base_delay : ℕ
  pub max_delay : ℕ

abbrev pub default_config : RetryConfig
default_config = record { max_retries = 3; base_delay = 100_000_000; max_delay = 5_000_000_000 }

unfoldable pub is_retryable : StatusClass → ℕ → Bool
is_retryable sc status = sc.is_server_error status || status == 429

unfoldable pub backoff_delay : ℕ → RetryConfig → Option ℕ
backoff_delay attempt config =
    map_option (λ delay. min delay config.max_delay) (times config.base_delay (u32 (2 ^ attempt)))

abbrev pub ext_retryable : String
ext_retryable = "retryable"

-- `none` is the panic of `backoff_delay`.
unfoldable pub on_response :
    {M V H B : Type 0}
    → StatusClass
    → RetryConfig
    → ProxyResponse H B
    → ConnectionContext M V
    → Option (Result (Unit {0}))
on_response sc config res ctx =
    let attempt = get_or 0 (read as_number ext_retryable ctx) in
    if is_retryable sc res.status
    then if ltb attempt config.max_retries
      then map_option (λ delay. err (rate_limited delay)) (backoff_delay attempt config)
      else some (ok tt)
    else some (ok tt)
