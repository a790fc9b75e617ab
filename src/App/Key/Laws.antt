-- ===== src/App/Key/Laws.antt =====
-- The comparison in constant time is equality.
use agent_proxy_rust.Common.{
  ℕ, ◌*◌, ◌/◌, ◌<◌, ◌≡◌, refl, ◌↔◌, true, List, [], ◌∷◌, arith, All, length, Option, get_or, ap,
  ◌∙◌, subst, ◌≢◌, Bool-cases, inl, inr,
}
use agent_proxy_rust.App.Key.{
  xor_bits, or_bits, eight, differences, constant_time_eq, admin_auth_middleware,
}

abbrev pow2 : List (Unit {0}) → ℕ
pow2 [] = 1
pow2 (u ∷ us) = 2 * pow2 us

-- Numbers of so many bits are equal if no bit of theirs differs.
xor_bits-zero :
    (us : List (Unit {0})) (a b : ℕ) → a < pow2 us → b < pow2 us → xor_bits us a b ≡ 0 → a ≡ b
xor_bits-zero [] a b ha hb h = omega arith
xor_bits-zero (u ∷ us) a b ha hb h =
    grind (arith, xor_bits-zero us (a / 2) (b / 2) (omega arith) (omega arith))

xor_bits_self : (us : List (Unit {0})) (a : ℕ) → xor_bits us a a ≡ 0
xor_bits_self [] a = refl
xor_bits_self (u ∷ us) a = ground (arith, xor_bits_self us (a / 2))

or_bits-zero :
    (us : List (Unit {0})) (a b : ℕ)
    → a < pow2 us
    → b < pow2 us
    → or_bits us a b ≡ 0
    → (a ≡ 0) × (b ≡ 0)
or_bits-zero [] a b ha hb h = (omega arith, omega arith)
or_bits-zero (u ∷ us) a b ha hb h =
    grind (arith, or_bits-zero us (a / 2) (b / 2) (omega arith) (omega arith))

or_bits_zeros : (us : List (Unit {0})) → or_bits us 0 0 ≡ 0
or_bits_zeros [] = refl
or_bits_zeros (u ∷ us) = ground (arith, or_bits_zeros us)

or_bits-bound : (us : List (Unit {0})) (a b : ℕ) → or_bits us a b < pow2 us
or_bits-bound [] a b = omega arith
or_bits-bound (u ∷ us) a b = ground (arith, or_bits-bound us (a / 2) (b / 2))

xor_bits-bound : (us : List (Unit {0})) (a b : ℕ) → xor_bits us a b < pow2 us
xor_bits-bound [] a b = omega arith
xor_bits-bound (u ∷ us) a b = ground (arith, xor_bits-bound us (a / 2) (b / 2))

-- A list of bytes.
abbrev pub IsBytes : List ℕ → Type 0
IsBytes = All λ x. x < 256

differences-zero :
    (diff : ℕ) (a b : List ℕ)
    → diff < 256
    → IsBytes a
    → IsBytes b
    → length a ≡ length b
    → differences diff a b ≡ 0
    → (diff ≡ 0) × (a ≡ b)
unfolding differences
differences-zero diff [] [] hd ha hb l h = (h, refl)
differences-zero diff [] (y ∷ ys) hd ha hb l h = absurd (omega (arith, l))
differences-zero diff (x ∷ xs) [] hd ha hb l h = absurd (omega (arith, l))
differences-zero diff (x ∷ xs) (y ∷ ys) hd ha hb l h =
    let next = or_bits eight diff (xor_bits eight x y) in
    let (e, rest) =
      differences-zero next xs ys (or_bits-bound eight diff (xor_bits eight x y)) ha.1 hb.1
        (omega (arith, l)) h in
    let (none_before, same_bits) =
      or_bits-zero eight diff (xor_bits eight x y) hd (xor_bits-bound eight x y) e in
    let same = xor_bits-zero eight x y ha.0 hb.0 same_bits in (none_before, cc)

differences_self : (a : List ℕ) → differences 0 a a ≡ 0
unfolding differences
differences_self [] = refl
differences_self (x ∷ xs) =
    let e : or_bits eight 0 (xor_bits eight x x) ≡ 0 =
      ap (or_bits eight 0) (xor_bits_self eight x) ∙ or_bits_zeros eight in
    ap (λ d. differences d xs xs) e ∙ differences_self xs

-- On bytes, the comparison in constant time is equality: no different key passes, and the right one
-- does.
pub constant_time_eq_iff :
    (a b : List ℕ) → IsBytes a → IsBytes b → (constant_time_eq a b ≡ true) ↔ (a ≡ b)
unfolding constant_time_eq
constant_time_eq_iff a b ha hb = (sound, complete)
  where
    sound : constant_time_eq a b ≡ true → a ≡ b
    sound h =
        let l : length a ≡ length b = ground (arith, h) in
        let d : differences 0 a b ≡ 0 = ground (arith, h) in
        (differences-zero 0 a b (omega arith) ha hb l d).1

    complete : a ≡ b → constant_time_eq a b ≡ true
    complete e =
        let l : length a ≡ length b = ap length e in
        let d : differences 0 a b ≡ 0 = subst (λ c. differences 0 a c ≡ 0) e (differences_self a) in
        ground (arith, l, d)

-- The admin API answers exactly those whose header, or the empty text without one, is the key.
pub admin_auth_middleware_lem :
    {A : Type 0} (expected : List ℕ) (provided : Option (List ℕ)) (unauthorized next : A)
    → IsBytes expected
    → IsBytes (get_or [] provided)
    → (get_or [] provided ≡ expected
        → admin_auth_middleware expected provided unauthorized next ≡ next)
      × (get_or [] provided ≢ expected
          → admin_auth_middleware expected provided unauthorized next ≡ unauthorized)
unfolding admin_auth_middleware
admin_auth_middleware_lem expected provided unauthorized next he hp =
    let iff = constant_time_eq_iff (get_or [] provided) expected hp he in
    (
      (λ e. rw (iff.1 e) refl),
      (λ ne. elim (Bool-cases (constant_time_eq (get_or [] provided) expected)) [
        | inl passed ↦ absurd (ne (iff.0 passed))
        | inr refused ↦ rw refused refl
      ]),
    )
