-- ===== src/Resilience/Limiter.antt =====
-- crates/resilience/src/rate_limiter.rs: a token bucket for each channel. Tokens are `f64`;
-- instants and durations are nanoseconds, and `seconds` is `as_secs_f64`.
pub mod Laws
mod Tests
use agent_proxy_rust.Common.{
  ℕ, ◌-◌, String, Option, none, some, Bool, true, false, Table, lookup, insert, if◌then◌else◌,
  is_blank, get_or,
}
use agent_proxy_rust.Core.Error.{Result, ok, err, rate_limited}
use agent_proxy_rust.Core.Float.{Float}
use agent_proxy_rust.Core.Types.{ConnectionContext, selected_name}

pub record RateLimitConfig : Type 0 where
  pub max_requests : ℕ
  pub window : ℕ

pub record TokenBucket (F : Type 0) : Type 0 where
  pub capacity : ℕ
  pub tokens : F
  pub refill_rate : F
  pub last_refill : ℕ

module _ {F : Type 0} (f : Float F) (seconds : ℕ → F) where
  unfoldable pub new_bucket : ℕ → ℕ → ℕ → TokenBucket F
  new_bucket now max_requests window = record {
    capacity = max_requests;
    tokens = f.of_nat max_requests;
    refill_rate = f.div (f.of_nat max_requests) (seconds window);
    last_refill = now;
  }

  unfoldable pub refill : ℕ → TokenBucket F → TokenBucket F
  refill now b =
      let added = f.mul (seconds (now - b.last_refill)) b.refill_rate in
      record b { tokens = f.min (f.add b.tokens added) (f.of_nat b.capacity); last_refill = now }

  unfoldable pub try_consume : ℕ → TokenBucket F → TokenBucket F × Bool
  try_consume now b =
      let b' = refill now b in
      if f.le (f.of_nat 1) b'.tokens
      then (record b' { tokens = f.sub b'.tokens (f.of_nat 1) }, true)
      else (b', false)

  module _ (config : RateLimitConfig) where
    unfoldable pub check_rate_limit :
        ℕ → String → Table (TokenBucket F) → Table (TokenBucket F) × Result (Unit {0})
    check_rate_limit now channel buckets =
        let (b, granted) =
          try_consume now
            (get_or (new_bucket now config.max_requests config.window) (lookup channel buckets)) in
        (insert channel b buckets, if granted then ok tt else err (rate_limited config.window))

    unfoldable pub on_request :
        {M V : Type 0}
        → ℕ
        → ConnectionContext M V
        → Table (TokenBucket F)
        → Table (TokenBucket F) × Result (Unit {0})
    on_request now ctx buckets =
        let channel = selected_name ctx in
        if is_blank channel then (buckets, ok tt) else check_rate_limit now channel buckets
