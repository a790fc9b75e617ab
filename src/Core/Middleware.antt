-- ===== src/Core/Middleware.antt =====
-- crates/core/src/middleware.rs: the middleware trait and its two chains. A middleware keeps its
-- state behind `&self`: here every middleware acts on one shared state `S`, and gets requests `Q`,
-- responses `R` and contexts `C`. What a refused call has changed stays changed.
pub mod Laws
pub mod Alias
mod Tests
use agent_proxy_rust.Common.{List, [], ◌∷◌, reverse}
use agent_proxy_rust.Core.Error.{Result, ok, err}

-- The state, the request and the context after a call, and its result.
abbrev pub Asked : Type 0 → Type 0 → Type 0 → Type 0
Asked S Q C = S × Q × C × Result (Unit {0})

-- The state and the response after a call, and its result. The context is not changed.
abbrev pub Answered : Type 0 → Type 0 → Type 0
Answered S R = S × R × Result (Unit {0})

pub record ProxyMiddleware (S Q R C : Type 0) : Type 0 where
  pub on_request : S → Q → C → Asked S Q C
  pub on_response : S → R → C → Answered S R

-- `?` on a call: go on after `Ok`, stop at `Err`.
abbrev pub resume {ℓ} :
    {S Q C : Type ℓ}
    → S × Q × C × Result (Unit {0})
    → (S → Q → C → S × Q × C × Result (Unit {0}))
    → S × Q × C × Result (Unit {0})
resume (s, q, c, ok u) next = next s q c
resume (s, q, c, err e) next = (s, q, c, err e)

abbrev pub proceed {ℓ} :
    {S R : Type ℓ}
    → S × R × Result (Unit {0})
    → (S → R → S × R × Result (Unit {0}))
    → S × R × Result (Unit {0})
proceed (s, r, ok u) next = next s r
proceed (s, r, err e) next = (s, r, err e)

module _ {S Q R C : Type 0} where
  unfoldable pub run_on_request_chain : List (ProxyMiddleware S Q R C) → S → Q → C → Asked S Q C
  run_on_request_chain [] s q c = (s, q, c, ok tt)
  run_on_request_chain (mw ∷ mws) s q c = resume (mw.on_request s q c) (run_on_request_chain mws)

  -- The loop of the response chain, over the reversed list.
  unfoldable pub run_responses : List (ProxyMiddleware S Q R C) → C → S → R → Answered S R
  run_responses [] c s r = (s, r, ok tt)
  run_responses (mw ∷ mws) c s r = proceed (mw.on_response s r c) (run_responses mws c)

  unfoldable pub run_on_response_chain : List (ProxyMiddleware S Q R C) → S → R → C → Answered S R
  run_on_response_chain mws s r c = run_responses (reverse mws) c s r
