-- ===== src/Core/Middleware/Laws.antt =====
-- The order in which the two chains call the middlewares, and where an error stops them.
use mathlib.Core.List.{reverse-append}
use agent_proxy_rust.Common.{
  List, [], ◌∷◌, ◌++◌, reverse, ◌≡◌, refl, sym, ap, fun_ext, ◌∙◌, ◌⊎◌, inl, inr, ◌↔◌,
}
use agent_proxy_rust.Core.Error.{ok, err, ProxyError}
use agent_proxy_rust.Core.Middleware.{
  ProxyMiddleware, Asked, Answered, resume, proceed, run_on_request_chain, run_responses,
  run_on_response_chain,
}

module _ {S Q C : Type 0} where
  Asked-cases :
      (o : Asked S Q C)
      → ((s : S) × (q : Q) × (c : C) × (o ≡ (s, q, c, ok tt)))
        ⊎ ((s : S) × (q : Q) × (c : C) × (e : ProxyError) × (o ≡ (s, q, c, err e)))
  Asked-cases (s, q, c, ok u) = inl (s, q, c, refl)
  Asked-cases (s, q, c, err e) = inr (s, q, c, e, refl)

  resume_assoc :
      (o : Asked S Q C) (f g : S → Q → C → Asked S Q C)
      → resume (resume o f) g ≡ resume o (λ s q c. resume (f s q c) g)
  resume_assoc (s, q, c, ok u) f g = refl
  resume_assoc (s, q, c, err e) f g = refl

module _ {S R : Type 0} where
  proceed_assoc :
      (o : Answered S R) (f g : S → R → Answered S R)
      → proceed (proceed o f) g ≡ proceed o (λ s r. proceed (f s r) g)
  proceed_assoc (s, r, ok u) f g = refl
  proceed_assoc (s, r, err e) f g = refl

module _ {S Q R C : Type 0} where
  -- Every middleware of the list, called in this order, lets the request pass.
  pub data Passes : List (ProxyMiddleware S Q R C) → S → Q → C → S → Q → C → Type 0 where
    through : {s s' : S} {q q' : Q} {c c' : C} → s ≡ s' → q ≡ q' → c ≡ c' → Passes [] s q c s' q' c'
    call :
        {mw : ProxyMiddleware S Q R C} {mws : List (ProxyMiddleware S Q R C)} {s t s' : S}
        {q p q' : Q} {c d c' : C}
        → mw.on_request s q c ≡ (t, p, d, ok tt)
        → Passes mws t p d s' q' c'
        → Passes (mw ∷ mws) s q c s' q' c'

  -- A middleware of the list refuses the request with `e`, after those before it let it pass.
  pub data Refuses
      : List (ProxyMiddleware S Q R C) → S → Q → C → S → Q → C → ProxyError → Type 0 where
    refuse :
        {mw : ProxyMiddleware S Q R C} {mws : List (ProxyMiddleware S Q R C)} {s s' : S} {q q' : Q}
        {c c' : C} {e : ProxyError}
        → mw.on_request s q c ≡ (s', q', c', err e)
        → Refuses (mw ∷ mws) s q c s' q' c' e
    later :
        {mw : ProxyMiddleware S Q R C} {mws : List (ProxyMiddleware S Q R C)} {s t s' : S}
        {q p q' : Q} {c d c' : C} {e : ProxyError}
        → mw.on_request s q c ≡ (t, p, d, ok tt)
        → Refuses mws t p d s' q' c' e
        → Refuses (mw ∷ mws) s q c s' q' c' e

  Passes-run :
      {mws : List (ProxyMiddleware S Q R C)} {s s' : S} {q q' : Q} {c c' : C}
      → Passes mws s q c s' q' c'
      → run_on_request_chain mws s q c ≡ (s', q', c', ok tt)
  unfolding run_on_request_chain
  Passes-run (through a b d) = cc
  Passes-run (call e p) = rw e (Passes-run p)

  run-Passes :
      (mws : List (ProxyMiddleware S Q R C)) (s s' : S) (q q' : Q) (c c' : C)
      → run_on_request_chain mws s q c ≡ (s', q', c', ok tt)
      → Passes mws s q c s' q' c'
  unfolding run_on_request_chain
  run-Passes [] s s' q q' c c' h = through (ap (λ o. o.0) h) (ap (λ o. o.1) h) (ap (λ o. o.2) h)
  run-Passes (mw ∷ mws) s s' q q' c c' h = elim (Asked-cases (mw.on_request s q c)) [
    | inl (t, p, d, e) ↦ call e (run-Passes mws t s' p q' d c' (rw (e, run_on_request_chain) at h))
    | inr (t, p, d, x, e) ↦
        let refused : (t, p, d, err x) ≡ (s', q', c', ok tt) = rw (e, run_on_request_chain) at h in
        cc (ap (λ o. o.3) refused)
  ]

  Refuses-run :
      {mws : List (ProxyMiddleware S Q R C)} {s s' : S} {q q' : Q} {c c' : C} {x : ProxyError}
      → Refuses mws s q c s' q' c' x
      → run_on_request_chain mws s q c ≡ (s', q', c', err x)
  unfolding run_on_request_chain
  Refuses-run (refuse e) = rw e
  Refuses-run (later e r) = rw e (Refuses-run r)

  run-Refuses :
      (mws : List (ProxyMiddleware S Q R C)) (s s' : S) (q q' : Q) (c c' : C) (x : ProxyError)
      → run_on_request_chain mws s q c ≡ (s', q', c', err x)
      → Refuses mws s q c s' q' c' x
  unfolding run_on_request_chain
  run-Refuses [] s s' q q' c c' x h = cc (ap (λ o. o.3) h)
  run-Refuses (mw ∷ mws) s s' q q' c c' x h = elim (Asked-cases (mw.on_request s q c)) [
    | inl (t, p, d, e) ↦
        later e (run-Refuses mws t s' p q' d c' x (rw (e, run_on_request_chain) at h))
    | inr (t, p, d, y, e) ↦
        let refused : (t, p, d, err y) ≡ (s', q', c', err x) = rw (e, run_on_request_chain) at h in
        refuse (e ∙ refused)
  ]

-- The request chain ends in `Ok` exactly when every middleware, called in registration order and
-- each on what the one before it left, lets the request pass.
pub run_on_request_chain-ok_iff :
    {S Q R C : Type 0} (mws : List (ProxyMiddleware S Q R C)) (s s' : S) (q q' : Q) (c c' : C)
    → (run_on_request_chain mws s q c ≡ (s', q', c', ok tt)) ↔ Passes mws s q c s' q' c'
run_on_request_chain-ok_iff mws s s' q q' c c' = (run-Passes mws s s' q q' c c', Passes-run)

-- The request chain ends in an error exactly when some middleware returns that error after all
-- before it passed the request, and the state, the request and the context stay as it left them.
pub run_on_request_chain-err_iff :
    {S Q R C : Type 0} (mws : List (ProxyMiddleware S Q R C)) (s s' : S) (q q' : Q) (c c' : C)
    (x : ProxyError)
    → (run_on_request_chain mws s q c ≡ (s', q', c', err x)) ↔ Refuses mws s q c s' q' c' x
run_on_request_chain-err_iff mws s s' q q' c c' x = (run-Refuses mws s s' q q' c c' x, Refuses-run)

module _ {S Q R C : Type 0} where
  run_responses-append :
      (mws others : List (ProxyMiddleware S Q R C)) (s : S) (r : R) (c : C)
      → run_responses (mws ++ others) c s r
        ≡ proceed (run_responses mws c s r) (run_responses others c)
  unfolding run_responses
  run_responses-append [] others s r c = refl
  run_responses-append (mw ∷ mws) others s r c =
      ap (proceed (mw.on_response s r c))
        (fun_ext λ t. fun_ext λ p. run_responses-append mws others t p c)
      ∙ sym (proceed_assoc (mw.on_response s r c) (run_responses mws c) (run_responses others c))

-- The response chain calls the middlewares in reverse registration order: those registered later
-- answer first, and those registered earlier run only if all the later ones returned `Ok`.
pub run_on_response_chain-append :
    {S Q R C : Type 0} (front back : List (ProxyMiddleware S Q R C)) (s : S) (r : R) (c : C)
    → run_on_response_chain (front ++ back) s r c
      ≡ proceed (run_on_response_chain back s r c) (λ t p. run_on_response_chain front t p c)
unfolding run_on_response_chain
run_on_response_chain-append front back s r c =
    rw reverse-append (run_responses-append (reverse back) (reverse front) s r c)
