-- ===== src/Resilience/Breaker/History.antt =====
-- The circuit of one channel over a history of calls, the latest first, against a count of the
-- failures since the last success.
use agent_proxy_rust.Common.{
  ℕ, ◌+◌, ◌<◌, ◌≤◌, ◌≡◌, ◌≢◌, ◌↔◌, ◌⊎◌, List, [], ◌∷◌, Option, none, some, arith, length,
}
use agent_proxy_rust.Resilience.Breaker.{
  closed, ChannelCircuit, CircuitBreakerConfig, new_circuit, allow_request, record_success,
  record_failure,
}

-- What happens to a channel: a request asks to pass, or a response reports a success or a failure.
pub data Event : Type 0 where
  asked : ℕ → Event
  succeeded : Event
  failed : ℕ → Event

module _ (config : CircuitBreakerConfig) where
  unfoldable pub step : Event → ChannelCircuit → ChannelCircuit
  step (asked now) c = (allow_request config.cooldown now c).0
  step succeeded c = record_success c
  step (failed now) c = record_failure config.failure_threshold now c

  unfoldable pub run : List Event → ChannelCircuit
  run [] = new_circuit
  run (e ∷ es) = step e (run es)

-- The failures since the last success.
abbrev pub streak : List Event → ℕ
streak [] = 0
streak (asked now ∷ es) = streak es
streak (succeeded ∷ es) = 0
streak (failed now ∷ es) = streak es + 1

-- The instant of the last failure since the last success.
abbrev pub last_failure : List Event → Option ℕ
last_failure [] = none
last_failure (asked now ∷ es) = last_failure es
last_failure (succeeded ∷ es) = none
last_failure (failed now ∷ es) = some now

streak-le : (es : List Event) → streak es ≤ length es
streak-le [] = omega arith
streak-le (asked now ∷ es) = omega (arith, streak-le es)
streak-le (succeeded ∷ es) = omega arith
streak-le (failed now ∷ es) = omega (arith, streak-le es)

-- What a circuit with `n` failures in a row, the last at `last`, looks like.
pub record Tracks (threshold n : ℕ) (last : Option ℕ) (c : ChannelCircuit) : Type 0 where
  pub counted : c.failure_count ≡ n
  pub closed_below : c.state ≡ closed → (n ≡ 0) ⊎ (n < threshold)
  pub tripped : c.state ≢ closed → (1 ≤ n) × (threshold ≤ n) × (c.opened_at ≡ last)

module _ (config : CircuitBreakerConfig) where
  run-Tracks :
      (es : List Event)
      → length es < 4294967296
      → Tracks config.failure_threshold (streak es) (last_failure es) (run config es)
  unfolding run step allow_request record_success record_failure
  run-Tracks [] h = ground arith
  run-Tracks (asked now ∷ es) h = ground (arith, run-Tracks es)
  run-Tracks (succeeded ∷ es) h = ground arith
  run-Tracks (failed now ∷ es) h = ground (arith, run-Tracks es, streak-le es)

-- Over any history of fewer than 2^32 calls the circuit counts exactly the failures since the last
-- success; it is closed exactly while these are none or fewer than the threshold, and otherwise it
-- holds the instant of the last failure.
pub run-refines :
    (config : CircuitBreakerConfig) (es : List Event)
    → length es < 4294967296
    → let c = run config es in
      (c.failure_count ≡ streak es)
      × ((c.state ≡ closed) ↔ ((streak es ≡ 0) ⊎ (streak es < config.failure_threshold)))
      × (c.state ≢ closed → c.opened_at ≡ last_failure es)
run-refines config es h = ground (arith, run-Tracks config es h)
