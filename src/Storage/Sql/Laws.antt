-- ===== src/Storage/Sql/Laws.antt =====
-- How the clauses of SQL change what `find` and `any` see.
use agent_proxy_rust.Common.{
  Bool, true, false, ◌≡◌, refl, Option, none, some, List, [], ◌∷◌, ◌++◌, arith, if◌then◌else◌, any,
  find, map_option, or_else, String, str_eq, eq_iff,
}
use agent_proxy_rust.Storage.Sql.{update_where, delete_where, Outcome, pooled, statement}

module _ {A : Type 0} where
  -- An update that keeps the key `q` of each row changes the row that is found.
  pub find-update_where :
      (q p : A → Bool) (f : A → A) (xs : List A)
      → ((x : A) → q (f x) ≡ q x)
      → find q (update_where p f xs) ≡ map_option (λ x. if p x then f x else x) (find q xs)
  find-update_where q p f [] h = refl
  find-update_where q p f (x ∷ xs) h = ground (arith, find-update_where q p f xs h, h x)

  pub any-update_where :
      (q p : A → Bool) (f : A → A) (xs : List A)
      → ((x : A) → q (f x) ≡ q x)
      → any q (update_where p f xs) ≡ any q xs
  any-update_where q p f [] h = refl
  any-update_where q p f (x ∷ xs) h = ground (arith, any-update_where q p f xs h, h x)

  pub find-append :
      (q : A → Bool) (xs ys : List A) → find q (xs ++ ys) ≡ or_else (find q xs) (find q ys)
  find-append q [] ys = refl
  find-append q (x ∷ xs) ys = ground (arith, find-append q xs ys)

  pub any-append_one :
      (q : A → Bool) (xs : List A) (y : A)
      → any q (xs ++ (y ∷ [])) ≡ (if any q xs then true else q y)
  any-append_one q [] y = ground arith
  any-append_one q (x ∷ xs) y = ground (arith, any-append_one q xs y)

  pub find-none_iff : (q : A → Bool) (xs : List A) → any q xs ≡ false → find q xs ≡ none
  find-none_iff q [] h = refl
  find-none_iff q (x ∷ xs) h = ground (arith, find-none_iff q xs)

-- What holds before a call and after its statements holds after the call, however it ends.
module _ {S A : Type 0} (P : S → Type 0) where
  pub pooled-keeps :
      (refused : Option String) (s : S) (body : S × Outcome A)
      → P s
      → P body.0
      → P (pooled refused s body).0
  pooled-keeps none s body p q = q
  pooled-keeps (some message) s body p q = p

  pub statement-keeps :
      (trouble : Option String) (s : S) (rest : S × Outcome A)
      → P s
      → P rest.0
      → P (statement trouble s rest).0
  statement-keeps none s rest p q = q
  statement-keeps (some message) s rest p q = p

  pub if-keeps :
      (b : Bool) (x y : S × Outcome A)
      → (b ≡ true → P x.0)
      → (b ≡ false → P y.0)
      → P (if b then x else y).0
  if-keeps true x y p q = p refl
  if-keeps false x y p q = q refl

-- Rows with keys of their own.
module _ {A : Type 0} (key : A → String) where
  abbrev pub keyed : String → A → Bool
  keyed k x = str_eq (key x) k

  abbrev pub Distinct : List A → Type 0
  Distinct [] = Unit
  Distinct (x ∷ xs) = (any (keyed (key x)) xs ≡ false) × Distinct xs

  any-keyed :
      (k : String) (p : A → Bool) (f : A → A) (xs : List A)
      → ((x : A) → p x ≡ true → key (f x) ≡ key x)
      → any (keyed k) (update_where p f xs) ≡ any (keyed k) xs
  any-keyed k p f [] h = refl
  any-keyed k p f (x ∷ xs) h = ground (arith, any-keyed k p f xs h, h x)

  pub update_where-Distinct :
      (p : A → Bool) (f : A → A) (xs : List A)
      → ((x : A) → p x ≡ true → key (f x) ≡ key x)
      → Distinct xs
      → Distinct (update_where p f xs)
  update_where-Distinct p f [] h d = tt
  update_where-Distinct p f (x ∷ xs) h d =
      ground (arith, update_where-Distinct p f xs h d.1, any-keyed (key x) p f xs h, h x)

  any-delete_where :
      (k : String) (p : A → Bool) (xs : List A)
      → any (keyed k) xs ≡ false
      → any (keyed k) (delete_where p xs) ≡ false
  any-delete_where k p [] h = refl
  any-delete_where k p (x ∷ xs) h = ground (arith, any-delete_where k p xs)

  pub delete_where-Distinct :
      (p : A → Bool) (xs : List A) → Distinct xs → Distinct (delete_where p xs)
  delete_where-Distinct p [] d = tt
  delete_where-Distinct p (x ∷ xs) d =
      ground (arith, delete_where-Distinct p xs d.1, any-delete_where (key x) p xs d.0)

  pub append-Distinct :
      (xs : List A) (y : A)
      → Distinct xs
      → any (keyed (key y)) xs ≡ false
      → Distinct (xs ++ (y ∷ []))
  append-Distinct [] y d h = (refl, tt)
  append-Distinct (x ∷ xs) y d h = ground (
    arith,
    append-Distinct xs y d.1,
    any-append_one (keyed (key x)) xs y,
    eq_iff (key x) (key y),
    eq_iff (key y) (key x),
  )
