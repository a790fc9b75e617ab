-- ===== src/Resilience/Breaker/Tests.antt =====
-- Runs of the circuit breaker, and instances of its laws.
use agent_proxy_rust.Common.{
  ◌≡◌, ◌≢◌, ◌<◌, ◌↔◌, ◌⊎◌, refl, some, List, [], ◌∷◌, Table, All, true, arith,
}
use agent_proxy_rust.Resilience.Breaker.{
  closed, open_state, half_open, ChannelCircuit, default_config, new_circuit, allow_request,
  record_failure, record_success,
}
use agent_proxy_rust.Resilience.Breaker.Laws.{admitted, probes_unbounded}
use agent_proxy_rust.Resilience.Breaker.History.{
  Event, asked, succeeded, failed, run, streak, last_failure, run-refines, step,
}

abbrev tripped : ChannelCircuit
tripped = record { state = open_state; failure_count = 3; opened_at = some 1000 }

abbrev circuits : Table ChannelCircuit
circuits = ("ds", tripped) ∷ []

-- Three failures open the circuit, the cooldown lets a request pass, and a success closes it.
life :
    (run default_config (failed 7 ∷ failed 6 ∷ failed 5 ∷ [])
      ≡ record tripped { opened_at = some 7 })
    × (run default_config (asked 60_000_000_007 ∷ failed 7 ∷ failed 6 ∷ failed 5 ∷ [])
        ≡ record tripped { state = half_open; opened_at = some 7 })
    × (run default_config (succeeded ∷ failed 7 ∷ failed 6 ∷ failed 5 ∷ []) ≡ new_circuit)
unfolding run step allow_request record_failure record_success
life = (refl, refl, refl)

run-refines_example :
    let es : List Event = failed 9 ∷ asked 8 ∷ succeeded ∷ failed 1 ∷ [] in
    let c = run default_config es in
    (c.failure_count ≡ streak es)
    × ((c.state ≡ closed) ↔ ((streak es ≡ 0) ⊎ (streak es < 3)))
    × (c.state ≢ closed → c.opened_at ≡ last_failure es)
run-refines_example =
    run-refines default_config (failed 9 ∷ asked 8 ∷ succeeded ∷ failed 1 ∷ []) (omega arith)

probes_unbounded_example :
    All
      (λ b. b ≡ true)
      (admitted default_config (60_000_001_000 ∷ 60_000_001_001 ∷ 60_000_001_002 ∷ []) tripped)
probes_unbounded_example =
    probes_unbounded default_config 60_000_001_000 1000 (60_000_001_001 ∷ 60_000_001_002 ∷ [])
      tripped refl refl (omega arith)
