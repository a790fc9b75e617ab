-- ===== src/Resilience/Breaker.antt =====
-- crates/resilience/src/circuit_breaker.rs. Instants and durations are numbers of nanoseconds, and
-- each call gets the instant `now` that the clock shows; `elapsed` stops at 0. The map under the
-- mutex is passed through; a poisoned lock is taken over, so locking never fails.
pub mod Laws
pub mod History
mod Tests
use agent_proxy_rust.Common.{
  ℕ, ◌+◌, ◌-◌, String, Option, none, some, Bool, true, false, ◌||◌, Table, lookup, insert, leb,
  ◌==◌, if◌then◌else◌, is_blank, get_or, u32,
}
use agent_proxy_rust.Core.Error.{Result, ok, err, circuit_open}
use agent_proxy_rust.Core.Http.{StatusClass}
use agent_proxy_rust.Core.Types.{ConnectionContext, ProxyResponse, selected_name}

pub record CircuitBreakerConfig : Type 0 where
  pub failure_threshold : ℕ
  pub cooldown : ℕ

abbrev pub default_config : CircuitBreakerConfig
default_config = record { failure_threshold = 3; cooldown = 60_000_000_000 }

pub data State : Type 0 where
  closed open_state half_open : State

pub record ChannelCircuit : Type 0 where
  pub state : State
  pub failure_count : ℕ
  pub opened_at : Option ℕ

abbrev pub new_circuit : ChannelCircuit
new_circuit = record { state = closed; failure_count = 0; opened_at = none }

-- The test of the `Open` arm: an opening time is known, and the cooldown has passed since.
abbrev pub is_over : ℕ → ℕ → Option ℕ → Bool
is_over cooldown now none = false
is_over cooldown now (some opened) = leb cooldown (now - opened)

abbrev allow_in : State → ℕ → ℕ → ChannelCircuit → ChannelCircuit × Bool
allow_in closed cooldown now c = (c, true)
allow_in half_open cooldown now c = (c, true)
allow_in open_state cooldown now c =
    if is_over cooldown now c.opened_at then (record c { state = half_open }, true) else (c, false)

unfoldable pub allow_request : ℕ → ℕ → ChannelCircuit → ChannelCircuit × Bool
allow_request cooldown now c = allow_in c.state cooldown now c

unfoldable pub record_success : ChannelCircuit → ChannelCircuit
record_success c = record { state = closed; failure_count = 0; opened_at = none }

unfoldable pub record_failure : ℕ → ℕ → ChannelCircuit → ChannelCircuit
record_failure threshold now c =
    let counted = record c { failure_count = u32 (c.failure_count + 1) } in
    if leb threshold counted.failure_count
    then record counted { state = open_state; opened_at = some now }
    else counted

-- `entry(channel).or_insert_with(new)`, as a value.
abbrev pub circuit_of : String → Table ChannelCircuit → ChannelCircuit
circuit_of channel circuits = get_or new_circuit (lookup channel circuits)

unfoldable pub is_retryable : StatusClass → ℕ → Bool
is_retryable sc status = sc.is_server_error status || status == 429

module _ {M V : Type 0} (config : CircuitBreakerConfig) where
  unfoldable pub on_request :
      ℕ → ConnectionContext M V → Table ChannelCircuit → Table ChannelCircuit × Result (Unit {0})
  on_request now ctx circuits =
      let channel = selected_name ctx in
      if is_blank channel
      then (circuits, ok tt)
      else let (c, allowed) = allow_request config.cooldown now (circuit_of channel circuits) in
        (insert channel c circuits, if allowed then ok tt else err (circuit_open channel))

  unfoldable pub on_response :
      {H B : Type 0}
      → StatusClass
      → ℕ
      → ProxyResponse H B
      → ConnectionContext M V
      → Table ChannelCircuit
      → Table ChannelCircuit × Result (Unit {0})
  on_response sc now res ctx circuits =
      let channel = selected_name ctx in
      if is_blank channel
      then (circuits, ok tt)
      else let c = circuit_of channel circuits in
        (
          insert channel
              (if is_retryable sc res.status
                then record_failure config.failure_threshold now c
                else record_success c)
              circuits,
          ok tt,
        )
