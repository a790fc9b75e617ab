-- ===== src/Common/Lists.antt =====
-- Lists: the operations that the code takes from `Vec` and `Iterator`, and predicates on lists.
use mathlib.Core.Logic.{inl, inr}
use Prim.Native.Nat.{ℕ, suc, ◌+◌}
use mathlib.Core.Path.{◌≡◌, sym}
use mathlib.Core.Bool.{Bool, true, false, ◌||◌}
use mathlib.Core.Option.{Option, none, some}
use mathlib.Core.List.{List, [], ◌∷◌, ◌++◌, Memᴰ}
use native.Mathlib.Omega.{arith}
use agent_proxy_rust.Common.Tests.{if◌then◌else◌, Bool-cases}

module _ {ℓ} {A : Type ℓ} where
  abbrev pub length : List A → ℕ
  length [] = 0
  length (x ∷ xs) = suc (length xs)

  abbrev pub is_empty : List A → Bool
  is_empty [] = true
  is_empty (x ∷ xs) = false

  abbrev pub first : List A → Option A
  first [] = none
  first (x ∷ xs) = some x

  abbrev pub any : (A → Bool) → List A → Bool
  any p [] = false
  any p (x ∷ xs) = p x || any p xs

  abbrev pub find : (A → Bool) → List A → Option A
  find p [] = none
  find p (x ∷ xs) = if p x then some x else find p xs

  abbrev pub keep : (A → Bool) → List A → List A
  keep p [] = []
  keep p (x ∷ xs) = if p x then x ∷ keep p xs else keep p xs

  abbrev pub All {κ} : (A → Type κ) → List A → Type κ
  All P [] = Unit
  All P (x ∷ xs) = P x × All P xs

  pub length-append : (xs ys : List A) → length (xs ++ ys) ≡ length xs + length ys
  length-append [] ys = omega arith
  length-append (x ∷ xs) ys = omega (arith, length-append xs ys)

  pub All-append {κ} : (P : A → Type κ) (xs ys : List A) → All P xs → All P ys → All P (xs ++ ys)
  All-append P [] ys _ q = q
  All-append P (x ∷ xs) ys (p, ps) q = (p, All-append P xs ys ps q)

  pub All-mem {κ} : (P : A → Type κ) (xs : List A) {x : A} → All P xs → Memᴰ x xs → P x
  All-mem P [] h m = elim m [ ]
  All-mem P (y ∷ ys) (p, ps) (Memᴰ.head e) = rw e p
  All-mem P (y ∷ ys) (p, ps) (Memᴰ.tail m) = All-mem P ys ps m

  pub find_sound :
      (p : A → Bool) (xs : List A) {x : A} → find p xs ≡ some x → Memᴰ x xs × (p x ≡ true)
  find_sound p [] h = cc
  find_sound p (y ∷ ys) {x} h = elim (Bool-cases (p y)) [
    | inl yes_here ↦
        let same : some y ≡ some x = rw yes_here at h in
        let e : y ≡ x = cc in (Memᴰ.head (sym e), rw (← e) yes_here)
    | inr not_here ↦ let (m, q) = find_sound p ys (rw not_here at h) in (Memᴰ.tail m, q)
  ]

  pub any-mem : (p : A → Bool) (xs : List A) {x : A} → Memᴰ x xs → p x ≡ true → any p xs ≡ true
  any-mem p [] m h = elim m [ ]
  any-mem p (y ∷ ys) (Memᴰ.head e) h = rw (← e, h)
  any-mem p (y ∷ ys) (Memᴰ.tail m) h = ground (arith, any-mem p ys m h)

  pub find_total : (p : A → Bool) (xs : List A) → any p xs ≡ true → (x : A) × (find p xs ≡ some x)
  find_total p [] h = cc
  find_total p (y ∷ ys) h = elim (Bool-cases (p y)) [
    | inl here ↦ (y, rw here)
    | inr there ↦ let (x, e) = find_total p ys (rw there at h) in (x, rw there e)
  ]

  mem-keep_split :
      (p : A → Bool) (y : A) (ys : List A) {x : A}
      → p y ≡ true
      → (Memᴰ x (keep p ys) → Memᴰ x ys × (p x ≡ true))
      → Memᴰ x (y ∷ keep p ys)
      → Memᴰ x (y ∷ ys) × (p x ≡ true)
  mem-keep_split p y ys k ih (Memᴰ.head e) = (Memᴰ.head e, rw e k)
  mem-keep_split p y ys k ih (Memᴰ.tail n) = let (m, q) = ih n in (Memᴰ.tail m, q)

  pub mem-keep :
      (p : A → Bool) (xs : List A) {x : A} → Memᴰ x (keep p xs) → Memᴰ x xs × (p x ≡ true)
  mem-keep p [] m = elim m [ ]
  mem-keep p (y ∷ ys) {x} m = elim (Bool-cases (p y)) [
    | inl kept ↦ mem-keep_split p y ys kept (mem-keep p ys) (rw kept at m)
    | inr dropped ↦ let (n, q) = mem-keep p ys (rw dropped at m) in (Memᴰ.tail n, q)
  ]

  pub keep-mem : (p : A → Bool) (xs : List A) {x : A} → Memᴰ x xs → p x ≡ true → Memᴰ x (keep p xs)
  keep-mem p [] m h = elim m [ ]
  keep-mem p (y ∷ ys) (Memᴰ.head e) h = let kept : p y ≡ true = rw (← e) h in rw kept (Memᴰ.head e)
  keep-mem p (y ∷ ys) (Memᴰ.tail m) h = elim (Bool-cases (p y)) [
    | inl kept ↦ rw kept (Memᴰ.tail (keep-mem p ys m h))
    | inr dropped ↦ rw dropped (keep-mem p ys m h)
  ]

  pub mem-append_left : (xs ys : List A) {x : A} → Memᴰ x xs → Memᴰ x (xs ++ ys)
  mem-append_left [] ys m = elim m [ ]
  mem-append_left (z ∷ xs) ys (Memᴰ.head e) = Memᴰ.head e
  mem-append_left (z ∷ xs) ys (Memᴰ.tail m) = Memᴰ.tail (mem-append_left xs ys m)

  pub mem-append_right : (xs ys : List A) {x : A} → Memᴰ x ys → Memᴰ x (xs ++ ys)
  mem-append_right [] ys m = m
  mem-append_right (z ∷ xs) ys m = Memᴰ.tail (mem-append_right xs ys m)

  pub find-none : (p : A → Bool) (xs : List A) {x : A} → find p xs ≡ none → Memᴰ x xs → p x ≡ false
  find-none p [] h m = elim m [ ]
  find-none p (y ∷ ys) {x} h m = elim (Bool-cases (p y)) [
    | inl here ↦ let clash : some y ≡ none = rw here at h in cc
    | inr there ↦ rest there (find-none p ys (rw there at h)) m
  ]
    where
      rest : p y ≡ false → (Memᴰ x ys → p x ≡ false) → Memᴰ x (y ∷ ys) → p x ≡ false
      rest e ih (Memᴰ.head same) = rw same e
      rest e ih (Memᴰ.tail n) = ih n
