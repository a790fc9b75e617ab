-- ===== src/Router/Quota/Laws.antt =====
-- The counters over a history of uses.
use agent_proxy_rust.Common.{
  ℕ, ◌+◌, ◌<◌, ◌≤◌, ◌≡◌, refl, List, [], ◌∷◌, arith, length, if◌then◌else◌, ◌==◌, false,
}
use agent_proxy_rust.Router.Quota.{QuotaUsage, new_usage, maybe_reset, record_usage}

-- The counter after uses, each with its month and its tokens, the latest first.
pub use_all : ℕ → List (ℕ × ℕ) → QuotaUsage
use_all created [] = new_usage created
use_all created ((month, tokens) ∷ uses) = record_usage month tokens (use_all created uses)

-- The uses at the head of the history that fall in one month, and their tokens.
abbrev pub in_month : ℕ → List (ℕ × ℕ) → ℕ
in_month m [] = 0
in_month m ((month, tokens) ∷ uses) = if m == month then 1 + in_month m uses else 0

abbrev pub tokens_in : ℕ → List (ℕ × ℕ) → ℕ
tokens_in m [] = 0
tokens_in m ((month, tokens) ∷ uses) = if m == month then tokens + tokens_in m uses else 0

abbrev pub total : List (ℕ × ℕ) → ℕ
total [] = 0
total ((month, tokens) ∷ uses) = tokens + total uses

in_month-le : (m : ℕ) (uses : List (ℕ × ℕ)) → in_month m uses ≤ length uses
in_month-le m [] = omega arith
in_month-le m ((month, tokens) ∷ uses) = ground (arith, in_month-le m uses)

tokens_in-le : (m : ℕ) (uses : List (ℕ × ℕ)) → tokens_in m uses ≤ total uses
tokens_in-le m [] = omega arith
tokens_in-le m ((month, tokens) ∷ uses) = ground (arith, tokens_in-le m uses)

-- A counter counts the uses of its own month.
record Counts (uses : List (ℕ × ℕ)) (u : QuotaUsage) : Type 0 where
  requests : u.requests_this_month ≡ in_month u.month_key uses
  tokens : u.tokens_this_month ≡ tokens_in u.month_key uses
  others : (m : ℕ) → (m == u.month_key) ≡ false → (in_month m uses ≡ 0) × (tokens_in m uses ≡ 0)

use_all-Counts :
    (created : ℕ) (uses : List (ℕ × ℕ))
    → length uses < 18446744073709551616
    → total uses < 18446744073709551616
    → Counts uses (use_all created uses)
unfolding use_all record_usage maybe_reset
use_all-Counts created [] h k = record {
  requests = refl;
  tokens = refl;
  others = λ m e. (refl, refl);
}
use_all-Counts created ((month, tokens) ∷ uses) h k =
    let before = use_all-Counts created uses (omega arith) (omega arith) in
    record {
      requests = ground (arith, before.requests, before.others month, in_month-le month uses);
      tokens = ground (arith, before.tokens, before.others month, tokens_in-le month uses);
      others = λ m e. ground (arith, before.others month);
    }

-- Whatever its history, short of an overflow of 64 bits, the counter of a mapping tells for the
-- month of the last use how many uses fell in it since the month began, and how many tokens they
-- took: earlier months are forgotten.
pub record_usage-counts :
    (created month tokens : ℕ) (uses : List (ℕ × ℕ))
    → length ((month, tokens) ∷ uses) < 18446744073709551616
    → total ((month, tokens) ∷ uses) < 18446744073709551616
    → let u = use_all created ((month, tokens) ∷ uses) in
      (u.month_key ≡ month)
      × (u.requests_this_month ≡ in_month month ((month, tokens) ∷ uses))
      × (u.tokens_this_month ≡ tokens_in month ((month, tokens) ∷ uses))
unfolding use_all record_usage maybe_reset
record_usage-counts created month tokens uses h k =
    let c = use_all-Counts created ((month, tokens) ∷ uses) h k in
    ground (arith, c.requests, c.tokens)
