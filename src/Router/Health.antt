-- ===== src/Router/Health.antt =====
-- `ChannelState` of crates/model-router/src/types.rs: the health of a channel. `now` is the instant
-- that the clock shows, in nanoseconds, and `elapsed` stops at 0.
pub mod Laws
mod Tests
use agent_proxy_rust.Common.{
  ℕ, ◌+◌, ◌-◌, ◌*◌, Option, none, some, Bool, true, false, if◌then◌else◌, leb, ◌==◌, times, seconds,
  u32, map_option,
}

pub data ChannelHealth : Type 0 where
  healthy unhealthy : ChannelHealth

pub record ChannelState : Type 0 where
  pub health : ChannelHealth
  pub failed_at : Option ℕ
  pub consecutive_failures : ℕ

abbrev pub new_state : ChannelState
new_state = record { health = healthy; failed_at = none; consecutive_failures = 0 }

unfoldable pub record_failure : ℕ → ChannelState → ChannelState
record_failure now s =
    let counted = record s { consecutive_failures = u32 (s.consecutive_failures + 1) } in
    if leb 3 counted.consecutive_failures
    then record counted { health = unhealthy; failed_at = some now }
    else counted

unfoldable pub record_success : ChannelState → ChannelState
record_success s = record { health = healthy; failed_at = none; consecutive_failures = 0 }

unfoldable pub mark_unhealthy : ℕ → ChannelState → ChannelState
mark_unhealthy now s = record { health = unhealthy; failed_at = some now; consecutive_failures = 3 }

unfoldable pub mark_rate_limited : ℕ → ChannelState → ChannelState
mark_rate_limited now s = record {
  health = unhealthy;
  failed_at = some now;
  consecutive_failures = 1;
}

-- The factor of the backoff: 1, 5 or 15.
abbrev pub backoff_factor : ℕ → ℕ
backoff_factor n = if leb n 1 then 1 else if n == 2 then 5 else 15

unfoldable pub exponential_cooldown : ℕ → ℕ → Option ℕ
exponential_cooldown n base = if leb n 1 then some base else times base (backoff_factor n)

-- `failed_at.is_none_or(|t| t.elapsed() >= effective)`.
abbrev pub is_past : ℕ → ℕ → Option ℕ → Bool
is_past now effective none = true
is_past now effective (some t) = leb effective (now - t)

abbrev pub rate_limit_cooldown : ℕ
rate_limit_cooldown = seconds 30

abbrev pub base_cooldown : ℕ
base_cooldown = seconds 60

-- The cooldown of an unhealthy channel. The product is far from the limit of durations
-- (`Health.Laws.effective_lem`).
abbrev pub effective : ℕ → ℕ
effective n = if leb n 1 then rate_limit_cooldown else base_cooldown * backoff_factor n

abbrev tryable_in : ChannelHealth → ℕ → ChannelState → Bool
tryable_in healthy now s = true
tryable_in unhealthy now s = is_past now (effective s.consecutive_failures) s.failed_at

unfoldable pub is_tryable_past_cooldown : ℕ → ChannelState → Bool
is_tryable_past_cooldown now s = tryable_in s.health now s

abbrev tryable_from : ChannelHealth → ℕ → ℕ → ChannelState → Option Bool
tryable_from healthy now base s = some true
tryable_from unhealthy now base s =
    map_option (λ cooldown. is_past now cooldown s.failed_at)
      (exponential_cooldown s.consecutive_failures base)

-- `none` is the panic of `exponential_cooldown`.
unfoldable pub is_tryable : ℕ → ℕ → ChannelState → Option Bool
unfolding exponential_cooldown
is_tryable now base s = tryable_from s.health now base s
