-- ===== src/Router/Select/Candidates.antt =====
-- Which mappings `find_candidates` gathers.
use mathlib.Core.List.{Memᴰ}
use agent_proxy_rust.Common.{
  String, Bool, true, false, not, List, [], ◌∷◌, ◌++◌, map, keep, ◌≡◌, refl, sym, ap, ◌⊎◌, inl, inr,
  ◌↔◌, str_eq, Bool-cases, mem-keep, keep-mem, mem-append_left, mem-append_right, ◌∙◌, eq_iff,
  if◌then◌else◌, ◌≢◌, subst,
}
use agent_proxy_rust.Router.Select.{
  ResolvedChannel, ResolvedMapping, Candidate, offers, find_candidates,
}

module _ {ℓ} {A B : Type ℓ} (f : A → B) where
  mem-map_out : (xs : List A) {y : B} → Memᴰ y (map f xs) → (x : A) × Memᴰ x xs × (y ≡ f x)
  mem-map_out [] m = elim m [ ]
  mem-map_out (x ∷ xs) (Memᴰ.head e) = (x, Memᴰ.head refl, e)
  mem-map_out (x ∷ xs) (Memᴰ.tail m) = let (z, n, e) = mem-map_out xs m in (z, Memᴰ.tail n, e)

  mem-map_in : (xs : List A) {x : A} → Memᴰ x xs → Memᴰ (f x) (map f xs)
  mem-map_in [] m = elim m [ ]
  mem-map_in (z ∷ xs) (Memᴰ.head e) = Memᴰ.head (ap f e)
  mem-map_in (z ∷ xs) (Memᴰ.tail m) = Memᴰ.tail (mem-map_in xs m)

mem-append_out {ℓ} :
    {A : Type ℓ} (xs ys : List A) {x : A} → Memᴰ x (xs ++ ys) → Memᴰ x xs ⊎ Memᴰ x ys
mem-append_out [] ys m = inr m
mem-append_out (z ∷ xs) ys (Memᴰ.head e) = inl (Memᴰ.head e)
mem-append_out (z ∷ xs) ys (Memᴰ.tail m) = elim (mem-append_out xs ys m) [
  | inl n ↦ inl (Memᴰ.tail n)
  | inr n ↦ inr n
]

true≢false : true ≢ false
true≢false = cc

unless_true : {A : Type 0} (b : Bool) (x y : A) → b ≡ true → (if not b then x else y) ≡ y
unless_true true x y e = refl
unless_true false x y e = elim (true≢false (sym e)) [ ]

unless_false : {A : Type 0} (b : Bool) (x y : A) → b ≡ false → (if not b then x else y) ≡ x
unless_false false x y e = refl
unless_false true x y e = elim (true≢false e) [ ]

-- A channel that is on, with one of its mappings for the model.
pub record Offers {F : Type 0} (channels : List (ResolvedChannel F)) (client_name : String)
    (c : Candidate F) : Type 0 where
  pub listed : Memᴰ c.0 channels
  pub enabled : c.0.enabled ≡ true
  pub mapping : Memᴰ c.1 c.0.mappings
  pub model : c.1.client_name ≡ client_name

module _ {F : Type 0} (client_name : String) where
  offers-out :
      (ch : ResolvedChannel F) (c : Candidate F)
      → Memᴰ c (offers client_name ch)
      → (c.0 ≡ ch) × Memᴰ c.1 ch.mappings × (c.1.client_name ≡ client_name)
  offers-out ch c m =
      let (x, n, e) =
        mem-map_out (λ x. (ch, x)) (keep (λ x. str_eq x.client_name client_name) ch.mappings) m in
      let (k, q) = mem-keep (λ x. str_eq x.client_name client_name) ch.mappings n in
      (ap (λ p. p.0) e, rw e k, rw e ((eq_iff _ _).0 q))

  find_none_mem : (c : Candidate F) → Memᴰ c (find_candidates [] client_name) → ⊥
  unfolding find_candidates
  find_none_mem c m = elim m [ ]

  found_here :
      (ch : ResolvedChannel F) (channels : List (ResolvedChannel F)) (c : Candidate F)
      → ch.enabled ≡ true
      → (c.0 ≡ ch) × Memᴰ c.1 ch.mappings × (c.1.client_name ≡ client_name)
      → Offers (ch ∷ channels) client_name c
  found_here ch channels c on (same, has, name) = record {
    listed = Memᴰ.head same;
    enabled = ap (λ d. d.enabled) same ∙ on;
    mapping = subst (λ d. Memᴰ c.1 d.mappings) (sym same) has;
    model = name;
  }

  when_on :
      (ch : ResolvedChannel F) (channels : List (ResolvedChannel F))
      → ch.enabled ≡ true
      → find_candidates (ch ∷ channels) client_name
        ≡ offers client_name ch ++ find_candidates channels client_name
  unfolding find_candidates
  when_on ch channels on = unless_true ch.enabled _ _ on

  when_off :
      (ch : ResolvedChannel F) (channels : List (ResolvedChannel F))
      → ch.enabled ≡ false
      → find_candidates (ch ∷ channels) client_name ≡ find_candidates channels client_name
  unfolding find_candidates
  when_off ch channels off = unless_false ch.enabled _ _ off

  later :
      (ch : ResolvedChannel F) (channels : List (ResolvedChannel F)) (c : Candidate F)
      → Offers channels client_name c
      → Offers (ch ∷ channels) client_name c
  later ch channels c o = record {
    listed = Memᴰ.tail o.listed;
    enabled = o.enabled;
    mapping = o.mapping;
    model = o.model;
  }

  found :
      (channels : List (ResolvedChannel F)) (c : Candidate F)
      → Memᴰ c (find_candidates channels client_name)
      → Offers channels client_name c
  found [] c m = elim (find_none_mem c m) [ ]
  found (ch ∷ channels) c m = elim (Bool-cases ch.enabled) [
    | inl on ↦
        elim (mem-append_out (offers client_name ch) (find_candidates channels client_name)
          (rw (when_on ch channels on) at m)) [
            | inl n ↦ found_here ch channels c on (offers-out ch c n)
            | inr n ↦ later ch channels c (found channels c n)
          ]
    | inr off ↦ later ch channels c (found channels c (rw (when_off ch channels off) at m))
  ]

  gathered_here :
      (ch : ResolvedChannel F) (m : ResolvedMapping F)
      → Memᴰ m ch.mappings
      → m.client_name ≡ client_name
      → Memᴰ (ch, m) (offers client_name ch)
  gathered_here ch m has name =
      mem-map_in (λ x. (ch, x)) _
        (keep-mem (λ x. str_eq x.client_name client_name) ch.mappings has ((eq_iff _ _).1 name))

  gathered_at :
      (ch : ResolvedChannel F) (channels : List (ResolvedChannel F)) (c : Candidate F)
      → ch.enabled ≡ true
      → Memᴰ c (offers client_name ch)
      → Memᴰ c (find_candidates (ch ∷ channels) client_name)
  gathered_at ch channels c on own =
      rw (when_on ch channels on)
        (mem-append_left (offers client_name ch) (find_candidates channels client_name) own)

  gathered :
      (channels : List (ResolvedChannel F)) (ch : ResolvedChannel F) (m : ResolvedMapping F)
      → Memᴰ ch channels
      → ch.enabled ≡ true
      → Memᴰ m ch.mappings
      → m.client_name ≡ client_name
      → Memᴰ (ch, m) (find_candidates channels client_name)
  gathered [] ch m here on has name = elim here [ ]
  gathered (c ∷ channels) ch m (Memᴰ.head e) on has name =
      subst (λ d. Memᴰ (ch, m) (find_candidates (d ∷ channels) client_name)) e
        (gathered_at ch channels (ch, m) on (gathered_here ch m has name))
  gathered (c ∷ channels) ch m (Memᴰ.tail n) on has name =
      let rest = gathered channels ch m n on has name in
      elim (Bool-cases c.enabled) [
        | inl live ↦
            rw (when_on c channels live)
              (mem-append_right (offers client_name c) (find_candidates channels client_name) rest)
        | inr off ↦ rw (when_off c channels off) rest
      ]

-- The candidates for a model are exactly the mappings for it of the channels that are enabled.
pub find_candidates_iff :
    {F : Type 0} (channels : List (ResolvedChannel F)) (client_name : String) (c : Candidate F)
    → Memᴰ c (find_candidates channels client_name) ↔ Offers channels client_name c
find_candidates_iff channels client_name c = (
  found client_name channels c,
  λ o. gathered client_name channels c.0 c.1 o.listed o.enabled o.mapping o.model,
)
