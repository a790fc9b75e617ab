-- ===== src/App/Key.antt =====
-- apps/server/src/admin_auth.rs: the admin key and the test of it. A text is the list of its bytes.
-- `trim` is that of the standard library, `generated` the text of 32 random bytes.
pub mod Laws
use agent_proxy_rust.Common.{
  ℕ, ◌+◌, ◌*◌, ◌/◌, ◌%◌, Option, none, some, Bool, true, false, not, List, [], ◌∷◌, if◌then◌else◌,
  ◌==◌, is_empty, length, get_or,
}

pub record AdminKey : Type 0 where
  pub key : List ℕ
  pub generated : Bool

unfoldable pub use_given : (List ℕ → List ℕ) → List ℕ → Option (List ℕ) → AdminKey
use_given trim random none = record { key = random; generated = true }
use_given trim random (some given) =
    if is_empty (trim given)
    then record { key = random; generated = true }
    else record { key = trim given; generated = false }

-- `resolve_admin_key_with`, with what the environment variable holds.
unfoldable pub resolve_admin_key :
    (List ℕ → List ℕ) → List ℕ → (List ℕ → Option (List ℕ)) → List ℕ → AdminKey
resolve_admin_key trim random env_lookup variable = use_given trim random (env_lookup variable)

-- `^` and `|` on the bits of a byte: `n` of them.
abbrev pub bit_xor : ℕ → ℕ → ℕ
bit_xor a b = if a == b then 0 else 1

abbrev pub bit_or : ℕ → ℕ → ℕ
bit_or a b = if a + b == 0 then 0 else 1

module _ where
  abbrev pub xor_bits : List (Unit {0}) → ℕ → ℕ → ℕ
  xor_bits [] a b = 0
  xor_bits (u ∷ us) a b = bit_xor (a % 2) (b % 2) + 2 * xor_bits us (a / 2) (b / 2)

  abbrev pub or_bits : List (Unit {0}) → ℕ → ℕ → ℕ
  or_bits [] a b = 0
  or_bits (u ∷ us) a b = bit_or (a % 2) (b % 2) + 2 * or_bits us (a / 2) (b / 2)

abbrev pub eight : List (Unit {0})
eight = tt ∷ tt ∷ tt ∷ tt ∷ tt ∷ tt ∷ tt ∷ tt ∷ []

-- The loop of `constant_time_eq`: `diff |= x ^ y`.
unfoldable pub differences : ℕ → List ℕ → List ℕ → ℕ
differences diff (x ∷ xs) (y ∷ ys) = differences (or_bits eight diff (xor_bits eight x y)) xs ys
differences diff _ _ = diff

unfoldable pub constant_time_eq : List ℕ → List ℕ → Bool
constant_time_eq a b = if not (length a == length b) then false else differences 0 a b == 0

-- `admin_auth_middleware`: a request without a readable header has the empty key. The answer is that
-- of the next layer, or 401.
unfoldable pub admin_auth_middleware : {A : Type 0} → List ℕ → Option (List ℕ) → A → A → A
admin_auth_middleware expected provided unauthorized next =
    if constant_time_eq (get_or [] provided) expected then next else unauthorized
