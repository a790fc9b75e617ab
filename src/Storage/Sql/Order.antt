-- ===== src/Storage/Sql/Order.antt =====
-- `ORDER BY`: no row is lost or made, and the rows come in order.
use agent_proxy_rust.Common.{
  ℕ, suc, ◌+◌, ◌≤◌, ◌≡◌, refl, Bool, true, false, List, [], ◌∷◌, ◌++◌, arith, String, codes, All,
  length, Bool-cases, inl, inr, zero, ap, ◌∙◌, map,
}
use agent_proxy_rust.Storage.Sql.{insert_row, order_by, codes_le, text_le, take, drop, page}

codes_le_total : (s t : List ℕ) → codes_le s t ≡ false → codes_le t s ≡ true
codes_le_total [] t h = cc
codes_le_total (a ∷ s) [] h = refl
codes_le_total (a ∷ s) (b ∷ t) h = ground (arith, codes_le_total s t)

codes_le_trans : (s t u : List ℕ) → codes_le s t ≡ true → codes_le t u ≡ true → codes_le s u ≡ true
codes_le_trans [] t u h k = refl
codes_le_trans (a ∷ s) [] u h k = cc
codes_le_trans (a ∷ s) (b ∷ t) [] h k = cc
codes_le_trans (a ∷ s) (b ∷ t) (c ∷ u) h k = ground (arith, codes_le_trans s t u)

pub text_le_total : (a b : String) → text_le a b ≡ false → text_le b a ≡ true
text_le_total a b h = codes_le_total (codes a) (codes b) h

pub text_le_trans : (a b c : String) → text_le a b ≡ true → text_le b c ≡ true → text_le a c ≡ true
text_le_trans a b c h k = codes_le_trans (codes a) (codes b) (codes c) h k

abbrev pub total_of : {A : Type 0} → (A → ℕ) → List A → ℕ
total_of f [] = 0
total_of f (x ∷ xs) = f x + total_of f xs

module _ {A : Type 0} where
  pub total_of-map :
      {B : Type 0} (h : B → ℕ) (f : A → B) (xs : List A)
      → total_of h (map f xs) ≡ total_of (λ x. h (f x)) xs
  total_of-map h f [] = refl
  total_of-map h f (x ∷ xs) = omega (arith, total_of-map h f xs)

  total-insert_row :
      (le : A → A → Bool) (f : A → ℕ) (x : A) (xs : List A)
      → total_of f (insert_row le x xs) ≡ f x + total_of f xs
  unfolding insert_row
  total-insert_row le f x [] = refl
  total-insert_row le f x (y ∷ ys) = ground (arith, total-insert_row le f x ys)

  pub total-order_by :
      (le : A → A → Bool) (f : A → ℕ) (xs : List A) → total_of f (order_by le xs) ≡ total_of f xs
  unfolding order_by
  total-order_by le f [] = refl
  total-order_by le f (x ∷ xs) =
      omega (arith, total-insert_row le f x (order_by le xs), total-order_by le f xs)

  -- Each row may come before all that are after it.
  abbrev pub Rises : (A → A → Bool) → List A → Type 0
  Rises le [] = Unit
  Rises le (x ∷ xs) = All (λ y. le x y ≡ true) xs × Rises le xs

  All-insert_row :
      (le : A → A → Bool) (P : A → Type 0) (x : A) (xs : List A)
      → P x
      → All P xs
      → All P (insert_row le x xs)
  unfolding insert_row
  All-insert_row le P x [] p ps = (p, tt)
  All-insert_row le P x (y ∷ ys) p ps = elim (Bool-cases (le x y)) [
    | inl first ↦ rw first (p, ps)
    | inr later ↦ rw later (ps.0, All-insert_row le P x ys p ps.1)
  ]

  pub All-order_by :
      (le : A → A → Bool) (P : A → Type 0) (xs : List A) → All P xs → All P (order_by le xs)
  unfolding order_by
  All-order_by le P [] ps = tt
  All-order_by le P (x ∷ xs) ps =
      All-insert_row le P x (order_by le xs) ps.0 (All-order_by le P xs ps.1)

  pub All-imply : (P Q : A → Type 0) (xs : List A) → ((y : A) → P y → Q y) → All P xs → All Q xs
  All-imply P Q [] h ps = tt
  All-imply P Q (x ∷ xs) h ps = (h x ps.0, All-imply P Q xs h ps.1)

  module _ (le : A → A → Bool) (le_total : (a b : A) → le a b ≡ false → le b a ≡ true)
      (le_trans : (a b c : A) → le a b ≡ true → le b c ≡ true → le a c ≡ true) where
    insert_row-Rises : (x : A) (xs : List A) → Rises le xs → Rises le (insert_row le x xs)
    unfolding insert_row
    insert_row-Rises x [] r = (tt, tt)
    insert_row-Rises x (y ∷ ys) r = elim (Bool-cases (le x y)) [
      | inl first ↦ rw first (
        (
          first,
          All-imply (λ z. le y z ≡ true) (λ z. le x z ≡ true) ys (λ z h. le_trans x y z first h)
              r.0,
        ),
        r,
      )
      | inr later ↦ rw later (
        All-insert_row le (λ z. le y z ≡ true) x ys (le_total x y later) r.0,
        insert_row-Rises x ys r.1,
      )
    ]

    pub order_by-Rises : (xs : List A) → Rises le (order_by le xs)
    unfolding order_by
    order_by-Rises [] = tt
    order_by-Rises (x ∷ xs) = insert_row-Rises x (order_by le xs) (order_by-Rises xs)

  take_nil : (n : ℕ) → take {A = A} n [] ≡ []
  take_nil zero = refl
  take_nil (suc n) = refl

  drop_nil : (n : ℕ) → drop {A = A} n [] ≡ []
  drop_nil zero = refl
  drop_nil (suc n) = refl

  take-add : (m n : ℕ) (xs : List A) → take m xs ++ take n (drop m xs) ≡ take (m + n) xs
  take-add zero n xs = ap (λ k. take k xs) (omega arith)
  take-add (suc m) n [] = simp take_nil refl
  take-add (suc m) n (x ∷ xs) =
      let e : suc (m + n) ≡ suc m + n = omega arith in
      ap (λ ys. x ∷ ys) (take-add m n xs) ∙ ap (λ k. take k (x ∷ xs)) e

  drop-drop : (m n : ℕ) (xs : List A) → drop n (drop m xs) ≡ drop (m + n) xs
  drop-drop zero n xs = ap (λ k. drop k xs) (omega arith)
  drop-drop (suc m) n [] = simp drop_nil refl
  drop-drop (suc m) n (x ∷ xs) =
      let e : suc (m + n) ≡ suc m + n = omega arith in
      drop-drop m n xs ∙ ap (λ k. drop k (x ∷ xs)) e

  -- Pages that follow each other make a longer page.
  pub page-add :
      (m n offset : ℕ) (xs : List A)
      → page m offset xs ++ page n (offset + m) xs ≡ page (m + n) offset xs
  page-add m n offset xs = rw (← drop-drop offset m xs) (take-add m n (drop offset xs))

  pub length-take : (n : ℕ) (xs : List A) → length (take n xs) ≤ n
  length-take zero xs = omega arith
  length-take (suc n) [] = omega arith
  length-take (suc n) (x ∷ xs) = omega (arith, length-take n xs)
