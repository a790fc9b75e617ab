-- ===== src/Resilience/Breaker/Laws.antt =====
-- What the circuit breaker does to a request of a channel, and that channels do not affect each
-- other.
use agent_proxy_rust.Common.{
  ℕ, ◌-◌, ◌<◌, ◌≤◌, ◌≡◌, ◌≢◌, String, some, Bool, true, false, arith, Table, lookup, lookup-insert,
  eq_iff, is_blank, List, [], ◌∷◌, All,
}
use agent_proxy_rust.Core.Error.{ok, err, circuit_open}
use agent_proxy_rust.Core.Http.{StatusClass}
use agent_proxy_rust.Core.Types.{ConnectionContext, ProxyResponse, selected_name}
use agent_proxy_rust.Resilience.Breaker.{
  open_state, half_open, ChannelCircuit, CircuitBreakerConfig, allow_request, circuit_of,
  record_failure, record_success, on_request, on_response,
}

module _ {M V : Type 0} (config : CircuitBreakerConfig) (ctx : ConnectionContext M V)
    (circuits : Table ChannelCircuit) where
  -- While the circuit of the selected channel is open and the cooldown since it opened has not
  -- passed, a request is refused with `CircuitOpen`, and no circuit changes.
  pub on_request_refuses :
      (now opened : ℕ) (c : ChannelCircuit)
      → is_blank (selected_name ctx) ≡ false
      → lookup (selected_name ctx) circuits ≡ some c
      → c.state ≡ open_state
      → c.opened_at ≡ some opened
      → now - opened < config.cooldown
      → let (after, result) = on_request config now ctx circuits in
        (result ≡ err (circuit_open (selected_name ctx)))
        × ((other : String) → lookup other after ≡ lookup other circuits)
  unfolding on_request allow_request
  on_request_refuses now opened c named found is_open at early = (
    ground arith,
    λ other. ground (
      arith,
      eq_iff (selected_name ctx) other,
      lookup-insert (selected_name ctx) other c circuits,
    ),
  )

  -- From the end of the cooldown on, a request is let through, and the circuit is half-open.
  pub on_request_probes :
      (now opened : ℕ) (c : ChannelCircuit)
      → is_blank (selected_name ctx) ≡ false
      → lookup (selected_name ctx) circuits ≡ some c
      → c.state ≡ open_state
      → c.opened_at ≡ some opened
      → config.cooldown ≤ now - opened
      → let (after, result) = on_request config now ctx circuits in
        (result ≡ ok tt)
        × (lookup (selected_name ctx) after ≡ some (record c { state = half_open }))
  unfolding on_request allow_request
  on_request_probes now opened c named found is_open at late = (
    ground arith,
    ground (
      arith,
      eq_iff (selected_name ctx) (selected_name ctx),
      lookup-insert (selected_name ctx) (selected_name ctx) (record c { state = half_open })
          circuits,
    ),
  )

  -- Neither a request nor a response touches the circuit of another channel.
  pub calls_isolated :
      {H B : Type 0} (sc : StatusClass) (res : ProxyResponse H B) (now : ℕ) (other : String)
      → selected_name ctx ≢ other
      → (lookup other (on_request config now ctx circuits).0 ≡ lookup other circuits)
        × (lookup other (on_response config sc now res ctx circuits).0 ≡ lookup other circuits)
  unfolding on_request on_response
  calls_isolated sc res now other apart =
      let mine = selected_name ctx in
      let c = circuit_of mine circuits in
      (
        ground (
          arith,
          eq_iff mine other,
          lookup-insert mine other (allow_request config.cooldown now c).0 circuits,
        ),
        ground (
          arith,
          eq_iff mine other,
          lookup-insert mine other (record_failure config.failure_threshold now c) circuits,
          lookup-insert mine other (record_success c) circuits,
        ),
      )

-- The answers to requests that ask one after the other, with no response between them.
pub admitted : CircuitBreakerConfig → List ℕ → ChannelCircuit → List Bool
admitted config [] c = []
admitted config (now ∷ times) c =
    (allow_request config.cooldown now c).1
    ∷ admitted config times (allow_request config.cooldown now c).0

half_open-admitted :
    (config : CircuitBreakerConfig) (times : List ℕ) (c : ChannelCircuit)
    → c.state ≡ half_open
    → All (λ b. b ≡ true) (admitted config times c)
unfolding admitted allow_request
half_open-admitted config [] c h = tt
half_open-admitted config (now ∷ times) c h = ground (arith, half_open-admitted config times c)

-- After the cooldown not one probe but every request is let through, as many as ask before a
-- response is seen.
pub probes_unbounded :
    (config : CircuitBreakerConfig) (now opened : ℕ) (times : List ℕ) (c : ChannelCircuit)
    → c.state ≡ open_state
    → c.opened_at ≡ some opened
    → config.cooldown ≤ now - opened
    → All (λ b. b ≡ true) (admitted config (now ∷ times) c)
unfolding admitted allow_request
probes_unbounded config now opened times c is_open at late =
    ground (arith, half_open-admitted config times (record c { state = half_open }))
