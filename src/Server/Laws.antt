-- ===== src/Server/Laws.antt =====
-- What reaches the upstream, and what the client gets.
use mathlib.Core.List.{Memᴰ}
use agent_proxy_rust.Common.{
  ℕ, String, Option, none, some, Bool, List, [], ◌∷◌, ◌≡◌, refl, codes, lower, map,
}
use agent_proxy_rust.Core.Error.{Result, ok, err}
use agent_proxy_rust.Core.Http.{HeaderMap, Json}
use agent_proxy_rust.Core.Types.{
  ProxyRequest, ProxyResponse, ConnectionContext, ChannelConfig, read, as_channel,
  ext_selected_channel, wants_stream,
}
use agent_proxy_rust.Core.Middleware.{run_on_request_chain, run_on_response_chain}
use agent_proxy_rust.Server.{
  UpstreamRequest, ProxyState, upstream_request, finish, handle_response, forward, dispatch,
  process, handle_proxy_request, validate_proxy_request,
}

-- The header has, in lower case, one of the names.
abbrev pub IsNamed : List String → String → Type 0
IsNamed names key = Memᴰ (lower (codes key)) (map codes names)

-- The headers that belong to the connection with the client, and the credentials for the proxy.
abbrev pub withheld : List String
withheld =
    "transfer-encoding" ∷ "connection" ∷ "keep-alive" ∷ "accept-encoding" ∷ "host"
    ∷ "content-length" ∷ "authorization" ∷ "x-api-key" ∷ []

module _ {S M V H B : Type 0} (hm : HeaderMap H) (j : Json V B) (state : ProxyState S M V H B) where
  -- The state with another recorder.
  abbrev with_recorder :
      Option (ConnectionContext M V → V → S → S × Result (Unit {0})) → ProxyState S M V H B
  with_recorder r = record state { cost_recorder = r }

  module _ (a b : Option (ConnectionContext M V → V → S → S × Result (Unit {0}))) where
    finish-reply :
        (ctx : ConnectionContext M V) (o : S × ProxyResponse H B × Result (Unit {0}))
        → (finish hm j (with_recorder a) ctx o).1 ≡ (finish hm j (with_recorder b) ctx o).1
    finish-reply ctx (s, res, ok u) = refl
    finish-reply ctx (s, res, err e) = refl

    handle_response-reply :
        (is_streaming : Bool) (ctx : ConnectionContext M V) (o : S × Result (ℕ × H × B))
        → (handle_response hm j (with_recorder a) is_streaming ctx o).1
          ≡ (handle_response hm j (with_recorder b) is_streaming ctx o).1
    handle_response-reply is_streaming ctx (s, err e) = refl
    handle_response-reply is_streaming ctx (s, ok (status, headers, body)) =
        finish-reply ctx (run_on_response_chain state.middlewares s _ ctx)

    forward-reply :
        (o : Option ChannelConfig) (s : S) (req : ProxyRequest H B) (ctx : ConnectionContext M V)
        → (forward hm j (with_recorder a) o s req ctx).1
          ≡ (forward hm j (with_recorder b) o s req ctx).1
    forward-reply none s req ctx = refl
    forward-reply (some ch) s req ctx =
        handle_response-reply (wants_stream j req) ctx (state.send (upstream_request hm req ch) s)

    dispatch-reply :
        (o : S × ProxyRequest H B × ConnectionContext M V × Result (Unit {0}))
        → (dispatch hm j (with_recorder a) o).1 ≡ (dispatch hm j (with_recorder b) o).1
    dispatch-reply (s, req, ctx, err e) = refl
    dispatch-reply (s, req, ctx, ok u) =
        forward-reply (read as_channel ext_selected_channel ctx) s req ctx

    process-reply :
        (v : Result (Unit {0})) (s : S) (req : ProxyRequest H B) (ctx : ConnectionContext M V)
        → (process hm j (with_recorder a) v s req ctx).1
          ≡ (process hm j (with_recorder b) v s req ctx).1
    process-reply (err e) s req ctx = refl
    process-reply (ok u) s req ctx =
        dispatch-reply (run_on_request_chain state.middlewares s req ctx)

    -- What the client gets does not depend on the cost recorder: whether there is one, what it
    -- does to the state, and whether it fails.
    pub handle_proxy_request-reply :
        (s : S) (req : ProxyRequest H B) (ctx : ConnectionContext M V)
        → (handle_proxy_request hm j (record state { cost_recorder = a }) s req ctx).1
          ≡ (handle_proxy_request hm j (record state { cost_recorder = b }) s req ctx).1
    unfolding handle_proxy_request
    handle_proxy_request-reply s req ctx = process-reply (validate_proxy_request hm j req) s req ctx

  module _ (send : UpstreamRequest B → S → S × Result (ℕ × H × B)) where
    -- A chain that selects no channel, or refuses.
    abbrev pub Unrouted : S × ProxyRequest H B × ConnectionContext M V × Result (Unit {0}) → Type 0
    Unrouted (s, req, ctx, err e) = Unit
    Unrouted (s, req, ctx, ok u) = read as_channel ext_selected_channel ctx ≡ none

    dispatch-unsent :
        (o : S × ProxyRequest H B × ConnectionContext M V × Result (Unit {0}))
        → Unrouted o
        → dispatch hm j state o ≡ dispatch hm j (record state { send = send }) o
    dispatch-unsent (s, req, ctx, err e) h = refl
    dispatch-unsent (s, req, ctx, ok u) h = rw h

    process-unsent :
        (v : Result (Unit {0})) (s : S) (req : ProxyRequest H B) (ctx : ConnectionContext M V)
        → Unrouted (run_on_request_chain state.middlewares s req ctx)
        → process hm j state v s req ctx ≡ process hm j (record state { send = send }) v s req ctx
    process-unsent (err e) s req ctx h = refl
    process-unsent (ok u) s req ctx h =
        dispatch-unsent (run_on_request_chain state.middlewares s req ctx) h

    -- A request that some middleware refuses, or for which none selects a channel, never reaches the
    -- upstream: any other upstream would give the same state and the same reply.
    pub handle_proxy_request-unsent :
        (s : S) (req : ProxyRequest H B) (ctx : ConnectionContext M V)
        → Unrouted (run_on_request_chain state.middlewares s req ctx)
        → handle_proxy_request hm j state s req ctx
          ≡ handle_proxy_request hm j (record state { send = send }) s req ctx
    unfolding handle_proxy_request
    handle_proxy_request-unsent s req ctx h =
        process-unsent (validate_proxy_request hm j req) s req ctx h
