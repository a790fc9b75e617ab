-- ===== src/Common/Time.antt =====
-- Durations: numbers of nanoseconds below 2^64 seconds. A product beyond that panics: `none`.
use Prim.Native.Nat.{ℕ, ◌*◌}
use mathlib.Core.Option.{Option, none, some}
use agent_proxy_rust.Common.Tests.{ltb, if◌then◌else◌}

abbrev pub duration_limit : ℕ
duration_limit = 18446744073709551616 * 1_000_000_000

abbrev pub times : ℕ → ℕ → Option ℕ
times d k = if ltb (d * k) duration_limit then some (d * k) else none

abbrev pub seconds : ℕ → ℕ
seconds n = n * 1_000_000_000
