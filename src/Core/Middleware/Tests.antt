-- ===== src/Core/Middleware/Tests.antt =====
-- Instances of the laws of the chains: middlewares that log their names in the shared state.
use agent_proxy_rust.Common.{ℕ, ◌≡◌, refl, ◌↔◌, List, [], ◌∷◌, ◌++◌, ◌+◌}
use agent_proxy_rust.Core.Error.{ok, err, unauthorized}
use agent_proxy_rust.Core.Middleware.{
  ProxyMiddleware, run_on_request_chain, run_on_response_chain, proceed, run_responses,
}
use agent_proxy_rust.Core.Middleware.Laws.{
  Refuses, run_on_request_chain-err_iff, run_on_response_chain-append,
}

abbrev Log : Type 0
Log = List ℕ

abbrev logger : ℕ → ProxyMiddleware Log ℕ ℕ ℕ
logger n = record {
  on_request = λ s q c. (n ∷ s, q + 1, c, ok tt);
  on_response = λ s r c. (n ∷ s, r + 1, ok tt);
}

abbrev refuser : ℕ → ProxyMiddleware Log ℕ ℕ ℕ
refuser n = record {
  on_request = λ s q c. (n ∷ s, q, c, err unauthorized);
  on_response = λ s r c. (n ∷ s, r, err unauthorized);
}

orders :
    (run_on_request_chain (logger 1 ∷ logger 2 ∷ []) [] 0 0 ≡ (2 ∷ 1 ∷ [], 2, 0, ok tt))
    × (run_on_response_chain (logger 1 ∷ logger 2 ∷ []) [] 0 0 ≡ (1 ∷ 2 ∷ [], 2, ok tt))
unfolding run_on_request_chain run_on_response_chain run_responses
orders = (refl, refl)

run_on_request_chain-err_iff_example :
    (run_on_request_chain (logger 1 ∷ refuser 2 ∷ logger 3 ∷ []) [] 0 0
      ≡ (2 ∷ 1 ∷ [], 1, 0, err unauthorized))
    ↔ Refuses (logger 1 ∷ refuser 2 ∷ logger 3 ∷ []) [] 0 0 (2 ∷ 1 ∷ []) 1 0 unauthorized
run_on_request_chain-err_iff_example =
    run_on_request_chain-err_iff (logger 1 ∷ refuser 2 ∷ logger 3 ∷ []) [] (2 ∷ 1 ∷ []) 0 1 0 0
      unauthorized

run_on_response_chain-append_example :
    run_on_response_chain ((logger 1 ∷ []) ++ (refuser 2 ∷ [])) [] 0 0
    ≡ proceed
        (run_on_response_chain (refuser 2 ∷ []) [] 0 0)
        (λ t p. run_on_response_chain (logger 1 ∷ []) t p 0)
run_on_response_chain-append_example =
    run_on_response_chain-append (logger 1 ∷ []) (refuser 2 ∷ []) [] 0 0
