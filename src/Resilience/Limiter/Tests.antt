-- ===== src/Resilience/Limiter/Tests.antt =====
-- Instances of the laws of the token bucket, with whole numbers for `f64` and for seconds.
use agent_proxy_rust.Common.{ℕ, ◌≡◌, ◌/◌, refl, arith}
use native.Mathlib.Nat.{zero-mul}
use agent_proxy_rust.Resilience.Limiter.{TokenBucket, try_consume}
use agent_proxy_rust.Resilience.Limiter.Laws.{IsFloat, IsBucket, try_consume-IsBucket}
use agent_proxy_rust.Samples.{whole}

abbrev seconds : ℕ → ℕ
seconds d = d / 1_000_000_000

whole-IsFloat : IsFloat whole seconds
whole-IsFloat = record {
  min_le = λ x n. ground arith;
  min_nonneg = λ x n h. ground arith;
  add_nonneg = λ x y h k. ground arith;
  sub_nonneg = λ x h. ground arith;
  sub_le = λ x n h. ground arith;
  le_of_nat = λ a b h k. refl;
  min_of_nat = λ a b h k. omega arith;
  add_zero = λ a h. omega arith;
  sub_one = λ a h. omega arith;
  refill_nonneg = λ n w d h. ground arith;
  refill_none = λ n w h. omega (arith, zero-mul (n / seconds w));
}

abbrev bucket : TokenBucket ℕ
bucket = record { capacity = 10; tokens = 3; refill_rate = 1; last_refill = 0 }

try_consume-IsBucket_example :
    IsBucket whole-IsFloat 10_000_000_000 (try_consume whole seconds 5_000_000_000 bucket).0
    × ((try_consume whole seconds 5_000_000_000 bucket).0.capacity ≡ 10)
try_consume-IsBucket_example =
    try_consume-IsBucket whole-IsFloat 10_000_000_000 5_000_000_000 bucket (omega arith)
      (record { rate = refl; not_overdrawn = refl; not_overfull = refl })
