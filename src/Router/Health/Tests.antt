-- ===== src/Router/Health/Tests.antt =====
-- Instances of the laws of health.
use agent_proxy_rust.Common.{◌+◌, ◌≡◌, ◌≤◌, ◌↔◌, refl, List, [], ◌∷◌, arith, true, seconds, some}
use agent_proxy_rust.Router.Health.{ChannelState, unhealthy, is_tryable_past_cooldown}
use agent_proxy_rust.Router.Health.Laws.{
  Event, failed, succeeded, broken, limited, run, failures, cooldowns,
}

abbrev past : List Event
past = failed 8 ∷ failed 7 ∷ succeeded ∷ limited 3 ∷ []

cooldowns_example :
    (2 ≤ failures past
      → (is_tryable_past_cooldown 100 (run (failed 9 ∷ past)) ≡ true) ↔ (9 + seconds 900 ≤ 100))
    × ((is_tryable_past_cooldown 100 (run (broken 9 ∷ past)) ≡ true) ↔ (9 + seconds 900 ≤ 100))
    × ((is_tryable_past_cooldown 100 (run (limited 9 ∷ past)) ≡ true) ↔ (9 + seconds 30 ≤ 100))
    × (is_tryable_past_cooldown 100 (run (succeeded ∷ past)) ≡ true)
cooldowns_example = cooldowns past 9 100 (omega arith)

abbrev slow : ChannelState
slow = record { health = unhealthy; failed_at = some 0; consecutive_failures = 1 }

open_again : is_tryable_past_cooldown (seconds 30) slow ≡ true
unfolding is_tryable_past_cooldown
open_again = refl
