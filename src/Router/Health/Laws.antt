-- ===== src/Router/Health/Laws.antt =====
-- When a channel may be tried again.
use agent_proxy_rust.Common.{
  ℕ, ◌+◌, ◌<◌, ◌≤◌, ◌≡◌, refl, ◌↔◌, List, [], ◌∷◌, arith, length, true, some, seconds,
}
use agent_proxy_rust.Router.Health.{
  ChannelState, new_state, record_failure, record_success, mark_unhealthy, mark_rate_limited,
  exponential_cooldown, base_cooldown, effective, is_tryable_past_cooldown,
}

-- Past the first failure, the cooldown is the exponential one, which does not overflow.
effective_lem : (n : ℕ) → 1 < n → exponential_cooldown n base_cooldown ≡ some (effective n)
unfolding exponential_cooldown
effective_lem n h = ground arith

-- What happens to a channel, each at its instant: a failure that is counted, a success, a server
-- error or a refused key, and a rate limit.
pub data Event : Type 0 where
  failed : ℕ → Event
  succeeded : Event
  broken : ℕ → Event
  limited : ℕ → Event

unfoldable pub step : Event → ChannelState → ChannelState
unfolding record_failure record_success mark_unhealthy mark_rate_limited
step (failed now) s = record_failure now s
step succeeded s = record_success s
step (broken now) s = mark_unhealthy now s
step (limited now) s = mark_rate_limited now s

-- The state after a history, the latest event first.
unfoldable pub run : List Event → ChannelState
run [] = new_state
run (e ∷ es) = step e (run es)

-- How many failures the history counts, where a server error counts as three and a rate limit as
-- one that also stops the channel.
abbrev pub failures : List Event → ℕ
failures [] = 0
failures (failed now ∷ es) = failures es + 1
failures (succeeded ∷ es) = 0
failures (broken now ∷ es) = 3
failures (limited now ∷ es) = 1

failures-le : (es : List Event) → failures es ≤ length es + 2
failures-le [] = omega arith
failures-le (failed now ∷ es) = omega (arith, failures-le es)
failures-le (succeeded ∷ es) = omega arith
failures-le (broken now ∷ es) = omega arith
failures-le (limited now ∷ es) = omega arith

run-failures :
    (es : List Event) → length es < 4294967290 → (run es).consecutive_failures ≡ failures es
unfolding run step
run-failures [] h = refl
run-failures (failed now ∷ es) h = ground (arith, run-failures es, failures-le es)
run-failures (succeeded ∷ es) h = refl
run-failures (broken now ∷ es) h = refl
run-failures (limited now ∷ es) h = refl

-- After any history shorter than 2^32 - 6 events, a failure at `t` that makes three or more in a
-- row, and a server error at `t`, close the channel for 900 seconds from `t`; a rate limit at `t`
-- closes it for 30 seconds; and a success opens it at once.
pub cooldowns :
    (es : List Event) (t now : ℕ)
    → length es < 4294967290
    → (2 ≤ failures es
        → (is_tryable_past_cooldown now (run (failed t ∷ es)) ≡ true) ↔ (t + seconds 900 ≤ now))
      × ((is_tryable_past_cooldown now (run (broken t ∷ es)) ≡ true) ↔ (t + seconds 900 ≤ now))
      × ((is_tryable_past_cooldown now (run (limited t ∷ es)) ≡ true) ↔ (t + seconds 30 ≤ now))
      × (is_tryable_past_cooldown now (run (succeeded ∷ es)) ≡ true)
unfolding run step is_tryable_past_cooldown
cooldowns es t now h =
    (λ two. ground (arith, run-failures es h, failures-le es), ground arith, ground arith, refl)

-- A channel that may be tried stays so until the next event.
pub is_tryable_mono :
    (s : ChannelState) (now later : ℕ)
    → now ≤ later
    → is_tryable_past_cooldown now s ≡ true
    → is_tryable_past_cooldown later s ≡ true
unfolding is_tryable_past_cooldown
is_tryable_mono s now later le h = ground arith
