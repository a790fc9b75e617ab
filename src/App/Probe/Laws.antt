-- ===== src/App/Probe/Laws.antt =====
-- The model that a probe is made with.
use mathlib.Core.List.{Memᴰ}
use agent_proxy_rust.Core.Float.{Float}
use agent_proxy_rust.Common.{
  ◌≡◌, refl, String, Option, none, some, true, false, List, [], ◌∷◌, str_eq, find, All, arith,
  Option-cases, Bool-cases, inl, inr, keep, is_empty, sym, ◌∙◌, subst, ◌⊎◌, ap,
}
use agent_proxy_rust.Storage.Types.{ModelMapping, Model}
use agent_proxy_rust.Storage.Sql.{done}
use agent_proxy_rust.App.Probe.{total_price, improves, cheapest, name_of, find_cheapest_model}

-- Prices that can be compared.
pub record IsOrdered {F : Type 0} (fl : Float F) : Type 0 where
  pub le_refl : (a : F) → fl.le a a ≡ true
  pub le_total : (a b : F) → fl.le a b ≡ false → fl.le b a ≡ true
  pub le_trans : (a b c : F) → fl.le a b ≡ true → fl.le b c ≡ true → fl.le a c ≡ true

some_injective : {A : Type 0} {a b : A} → some a ≡ some b → a ≡ b
some_injective h = cc

module _ {F : Type 0} (fl : Float F) (order : IsOrdered fl) where
  -- A price is at most that of the mapping's model, if the model is known.
  abbrev pub IsBelow : List (Model F) → F → ModelMapping → Type 0
  IsBelow models p m =
      (model : Model F)
      → find (λ x. str_eq x.client_name m.client_name) models ≡ some model
      → fl.le p (total_price fl model) ≡ true

  -- A price is at most the best so far.
  abbrev pub IsBest : F → Option (F × String) → Type 0
  IsBest p none = Unit
  IsBest p (some (best, name)) = fl.le p best ≡ true

  improved :
      (p price : F) (name : String) (best : Option (F × String))
      → improves fl price best ≡ true
      → IsBest p (some (price, name))
      → IsBest p best
  improved p price name none h b = tt
  improved p price name (some (q, own)) h b =
      order.le_trans p price q b (order.le_total q price (ground (arith, h)))

  kept :
      (p price : F) (best : Option (F × String))
      → improves fl price best ≡ false
      → IsBest p best
      → fl.le p price ≡ true
  kept p price none h b = cc
  kept p price (some (q, own)) h b = order.le_trans p q price b (ground (arith, h))

  own-IsBest :
      (p : F) (best : Option (F × String)) {name : String} → best ≡ some (p, name) → IsBest p best
  own-IsBest p none h = tt
  own-IsBest p (some (q, own)) h =
      let e : q ≡ p = cc in subst (λ r. fl.le p r ≡ true) (sym e) (order.le_refl p)

  cheapest_lem :
      (models : List (Model F)) (ms : List ModelMapping) (best : Option (F × String)) {p : F}
      {name : String}
      → cheapest fl models ms best ≡ some (p, name)
      → IsBest p best × All (IsBelow models p) ms
  unfolding cheapest
  cheapest_lem models [] best {p} h = (own-IsBest p best h, tt)
  cheapest_lem models (m ∷ ms) best {p} h =
      elim (Option-cases (find (λ x. str_eq x.client_name m.client_name) models)) [
        | inl unknown ↦
            let (b, rest) = cheapest_lem models ms best (rw unknown at h) in
            (b, ((λ x e. cc), rest))
        | inr (model, known) ↦ elim (Bool-cases (improves fl (total_price fl model) best)) [
          | inl better ↦
              let (b, rest) =
                cheapest_lem models ms (some (total_price fl model, m.upstream_name))
                  (rw (known, better) at h) in
              (
                improved p (total_price fl model) m.upstream_name best better b,
                ((λ x e. rw (← some_injective (sym known ∙ e)) b), rest),
              )
          | inr worse ↦
              let (b, rest) = cheapest_lem models ms best (rw (known, worse) at h) in
              (
                b,
                (
                  (λ x e.
                      rw (← some_injective (sym known ∙ e))
                        (kept p (total_price fl model) best worse b)),
                  rest,
                ),
              )
        ]
      ]

  -- A mapping, with its model, that a name and a price are taken from.
  abbrev pub IsFrom : List (Model F) → F × String → ModelMapping → Type 0
  IsFrom models (p, name) m =
      (model : Model F) × (find (λ x. str_eq x.client_name m.client_name) models ≡ some model)
      × (total_price fl model ≡ p)
      × (m.upstream_name ≡ name)

  cheapest-IsFrom :
      (models : List (Model F)) (ms : List ModelMapping) (best : Option (F × String))
      {c : F × String}
      → cheapest fl models ms best ≡ some c
      → (best ≡ some c) ⊎ ((m : ModelMapping) × Memᴰ m ms × IsFrom models c m)
  unfolding cheapest
  cheapest-IsFrom models [] best h = inl h
  cheapest-IsFrom models (m ∷ ms) best {c} h =
      elim (Option-cases (find (λ x. str_eq x.client_name m.client_name) models)) [
        | inl unknown ↦ later m (cheapest-IsFrom models ms best (rw unknown at h))
        | inr (model, known) ↦ elim (Bool-cases (improves fl (total_price fl model) best)) [
          | inl better ↦ here_or_later m model known (
              cheapest-IsFrom models ms (some (total_price fl model, m.upstream_name))
                (rw (known, better) at h))
          | inr worse ↦ later m (cheapest-IsFrom models ms best (rw (known, worse) at h))
        ]
      ]
    where
      later :
          (m : ModelMapping)
          → (best ≡ some c) ⊎ ((x : ModelMapping) × Memᴰ x ms × IsFrom models c x)
          → (best ≡ some c) ⊎ ((x : ModelMapping) × Memᴰ x (m ∷ ms) × IsFrom models c x)
      later m (inl e) = inl e
      later m (inr (x, i, f)) = inr (x, Memᴰ.tail i, f)

      here_or_later :
          (m : ModelMapping) (model : Model F)
          → find (λ x. str_eq x.client_name m.client_name) models ≡ some model
          → (some (total_price fl model, m.upstream_name) ≡ some c)
            ⊎ ((x : ModelMapping) × Memᴰ x ms × IsFrom models c x)
          → (best ≡ some c) ⊎ ((x : ModelMapping) × Memᴰ x (m ∷ ms) × IsFrom models c x)
      here_or_later m model known (inl e) =
          let same = some_injective e in
          inr (m, Memᴰ.head refl, (model, known, ap (λ x. x.0) same, ap (λ x. x.1) same))
      here_or_later m model known (inr (x, i, f)) = inr (x, Memᴰ.tail i, f)

  -- A price and a name that are the cheapest of the enabled mappings.
  abbrev pub IsCheapest : List ModelMapping → List (Model F) → F × String → Type 0
  IsCheapest ms models c =
      ((m : ModelMapping) × Memᴰ m (keep (λ m. m.enabled) ms) × IsFrom models c m)
      × All (IsBelow models c.0) (keep (λ m. m.enabled) ms)

  none_or_more :
      (ms : List ModelMapping) (models : List (Model F)) (best : Option (F × String))
      {name : String}
      → name_of fl best ≡ some name
      → cheapest fl models (keep (λ m. m.enabled) ms) none ≡ best
      → (p : F) × IsCheapest ms models (p, name)
  none_or_more ms models none h e = cc
  none_or_more ms models (some (p, own)) {name} h e =
      let same : own ≡ name = some_injective h in
      let found = e ∙ ap (λ n. some (p, n)) same in
      (
        p,
        (
          chosen (cheapest-IsFrom models (keep (λ m. m.enabled) ms) none found),
          (cheapest_lem models (keep (λ m. m.enabled) ms) none found).1,
        ),
      )
    where
      chosen :
          {c : F × String}
          → (none ≡ some c)
            ⊎ ((m : ModelMapping) × Memᴰ m (keep (λ m. m.enabled) ms) × IsFrom models c m)
          → (m : ModelMapping) × Memᴰ m (keep (λ m. m.enabled) ms) × IsFrom models c m
      chosen (inl e) = cc
      chosen (inr f) = f

  -- With prices that can be compared, the model that a probe asks for is that of an enabled mapping,
  -- and no enabled mapping has a cheaper model.
  pub find_cheapest_model_lem :
      (ms : List ModelMapping) (models : List (Model F)) {name : String}
      → find_cheapest_model fl (done ms) (done models) ≡ some name
      → (p : F) × IsCheapest ms models (p, name)
  unfolding find_cheapest_model
  find_cheapest_model_lem ms models h = elim (Bool-cases (is_empty (keep (λ m. m.enabled) ms))) [
    | inl empty ↦ let clash : none ≡ some _ = rw empty at h in cc
    | inr full ↦
        none_or_more ms models (cheapest fl models (keep (λ m. m.enabled) ms) none) (rw full at h)
          refl
  ]
