-- ===== src/Common/Sorting.antt =====
-- `sort_by_key(Reverse(key))`: the stable sort by falling keys.
use mathlib.Core.Option.{some}
use Prim.Native.Nat.{ℕ, ◌≤◌}
use mathlib.Core.Path.{◌≡◌, refl, sym, ap, ◌∙◌}
use mathlib.Core.Logic.{inl, inr}
use mathlib.Core.Bool.{Bool, true, false, false≢true}
use mathlib.Core.List.{List, [], ◌∷◌, Memᴰ}
use native.Mathlib.Omega.{arith}
use agent_proxy_rust.Common.Tests.{ltb, if◌then◌else◌, Bool-cases, ltb→lt}
use agent_proxy_rust.Common.Lists.{All, All-mem, find}

module _ {ℓ} {A : Type ℓ} (key : A → ℕ) where
  -- Behind the greater keys, and before the equal ones.
  unfoldable pub insert_by : A → List A → List A
  insert_by x [] = x ∷ []
  insert_by x (y ∷ ys) = if ltb (key x) (key y) then y ∷ insert_by x ys else x ∷ y ∷ ys

  unfoldable pub sort_desc : List A → List A
  unfolding insert_by
  sort_desc [] = []
  sort_desc (x ∷ xs) = insert_by x (sort_desc xs)

  insert_by-mem : (x y : A) (ys : List A) → Memᴰ y (insert_by x ys) → Memᴰ y (x ∷ ys)
  unfolding insert_by
  insert_by-mem x y [] m = m
  insert_by-mem x y (z ∷ ys) m = elim (Bool-cases (ltb (key x) (key z))) [
    | inl behind ↦ shift (insert_by-mem x y ys) (rw behind at m)
    | inr before ↦ rw before at m
  ]
    where
      shift :
          (Memᴰ y (insert_by x ys) → Memᴰ y (x ∷ ys))
          → Memᴰ y (z ∷ insert_by x ys)
          → Memᴰ y (x ∷ z ∷ ys)
      shift ih (Memᴰ.head e) = Memᴰ.tail (Memᴰ.head e)
      shift ih (Memᴰ.tail n) = swap (ih n)
        where
          swap : Memᴰ y (x ∷ ys) → Memᴰ y (x ∷ z ∷ ys)
          swap (Memᴰ.head e) = Memᴰ.head e
          swap (Memᴰ.tail k) = Memᴰ.tail (Memᴰ.tail k)

  mem-insert_by_self : (x : A) (ys : List A) → Memᴰ x (insert_by x ys)
  unfolding insert_by
  mem-insert_by_self x [] = Memᴰ.head refl
  mem-insert_by_self x (z ∷ ys) = elim (Bool-cases (ltb (key x) (key z))) [
    | inl behind ↦ rw behind (Memᴰ.tail (mem-insert_by_self x ys))
    | inr before ↦ rw before (Memᴰ.head refl)
  ]

  mem-insert_by_old : (x y : A) (ys : List A) → Memᴰ y ys → Memᴰ y (insert_by x ys)
  unfolding insert_by
  mem-insert_by_old x y [] m = elim m [ ]
  mem-insert_by_old x y (z ∷ ys) (Memᴰ.head e) = elim (Bool-cases (ltb (key x) (key z))) [
    | inl behind ↦ rw behind (Memᴰ.head e)
    | inr before ↦ rw before (Memᴰ.tail (Memᴰ.head e))
  ]
  mem-insert_by_old x y (z ∷ ys) (Memᴰ.tail m) = elim (Bool-cases (ltb (key x) (key z))) [
    | inl behind ↦ rw behind (Memᴰ.tail (mem-insert_by_old x y ys m))
    | inr before ↦ rw before (Memᴰ.tail (Memᴰ.tail m))
  ]

  pub sort_desc-mem : (xs : List A) {y : A} → Memᴰ y (sort_desc xs) → Memᴰ y xs
  unfolding sort_desc
  sort_desc-mem [] m = m
  sort_desc-mem (x ∷ xs) {y} m = back (sort_desc-mem xs) (insert_by-mem x y (sort_desc xs) m)
    where
      back : (Memᴰ y (sort_desc xs) → Memᴰ y xs) → Memᴰ y (x ∷ sort_desc xs) → Memᴰ y (x ∷ xs)
      back ih (Memᴰ.head e) = Memᴰ.head e
      back ih (Memᴰ.tail n) = Memᴰ.tail (ih n)

  pub mem-sort_desc : (xs : List A) {y : A} → Memᴰ y xs → Memᴰ y (sort_desc xs)
  unfolding sort_desc
  mem-sort_desc [] m = elim m [ ]
  mem-sort_desc (x ∷ xs) (Memᴰ.head e) = rw e (mem-insert_by_self x (sort_desc xs))
  mem-sort_desc (x ∷ xs) {y} (Memᴰ.tail m) =
      mem-insert_by_old x y (sort_desc xs) (mem-sort_desc xs m)

  -- No key is above one before it.
  abbrev pub Falls : List A → Type 0
  Falls [] = Unit
  Falls (x ∷ xs) = All (λ y. key y ≤ key x) xs × Falls xs

  All-insert_by :
      (n : ℕ) (x : A) (ys : List A)
      → key x ≤ n
      → All (λ y. key y ≤ n) ys
      → All (λ y. key y ≤ n) (insert_by x ys)
  unfolding insert_by
  All-insert_by n x [] h a = (h, tt)
  All-insert_by n x (z ∷ ys) h (p, a) = elim (Bool-cases (ltb (key x) (key z))) [
    | inl behind ↦ rw behind (p, All-insert_by n x ys h a)
    | inr before ↦ rw before (h, (p, a))
  ]

  All-weaken : (n m : ℕ) (ys : List A) → n ≤ m → All (λ y. key y ≤ n) ys → All (λ y. key y ≤ m) ys
  All-weaken n m [] h a = tt
  All-weaken n m (y ∷ ys) h (p, a) = (omega arith, All-weaken n m ys h a)

  insert_by-Falls : (x : A) (ys : List A) → Falls ys → Falls (insert_by x ys)
  unfolding insert_by
  insert_by-Falls x [] f = (tt, tt)
  insert_by-Falls x (z ∷ ys) (a, f) = elim (Bool-cases (ltb (key x) (key z))) [
    | inl behind ↦
        let below = ltb→lt (key x) (key z) behind in
        rw behind (All-insert_by (key z) x ys (omega arith) a, insert_by-Falls x ys f)
    | inr before ↦
        let above : key z ≤ key x = ground arith in
        rw before ((above, All-weaken (key z) (key x) ys above a), (a, f))
  ]

  pub sort_desc-Falls : (xs : List A) → Falls (sort_desc xs)
  unfolding sort_desc
  sort_desc-Falls [] = tt
  sort_desc-Falls (x ∷ xs) = insert_by-Falls x (sort_desc xs) (sort_desc-Falls xs)

  -- What is found first in a list of falling keys has a greatest key of all that could be found.
  pub find-Falls :
      (p : A → Bool) (xs : List A) {x y : A}
      → Falls xs
      → find p xs ≡ some x
      → Memᴰ y xs
      → p y ≡ true
      → key y ≤ key x
  find-Falls p [] f h m q = elim m [ ]
  find-Falls p (z ∷ xs) {x} {y} (a, f) h m q = elim (Bool-cases (p z)) [
    | inl here ↦
        let found : some z ≡ some x = rw here at h in
        let same : z ≡ x = cc in
        rw (← same) (All-mem (λ w. key w ≤ key z) (z ∷ xs) (omega arith, a) m)
    | inr there ↦ find-Falls p xs f (rw there at h) (below there m) q
  ]
    where
      below : p z ≡ false → Memᴰ y (z ∷ xs) → Memᴰ y xs
      below e (Memᴰ.head same) = absurd (false≢true (sym e ∙ (ap p (sym same) ∙ q)))
      below e (Memᴰ.tail n) = n
