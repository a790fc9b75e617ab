-- ===== src/Server.antt =====
-- crates/core/src/server.rs: how a request is checked, sent upstream and answered. `S` is the state
-- of all that the calls act on: the middlewares, the upstream and the cost storage. The child modules
-- have the correlation with reports and the usage of streams, which is `sse` here. Routing by path and
-- the reading of the body are not modelled.
pub mod Correlation
pub mod StreamUsage
pub mod Laws
mod Tests
use agent_proxy_rust.Common.{
  insert_all, ℕ, String, Option, none, some, Bool, true, false, not, List, [], ◌∷◌, ◌++◌,
  if◌then◌else◌, ◌==◌, ltb, any, keep, get_or, and_then, keep_if, is_blank, codes, lower, code_eq,
  starts_with, trim_slashes,
}
use agent_proxy_rust.Core.Error.{ProxyError, Result, ok, err, bad_request, channel_selection, ◌<>◌}
use agent_proxy_rust.Core.Http.{HeaderMap, Json}
use agent_proxy_rust.Core.Types.{
  ProxyRequest, ProxyResponse, ConnectionContext, ChannelConfig, read, as_channel,
  ext_selected_channel, wants_stream,
}
use agent_proxy_rust.Core.Middleware.{ProxyMiddleware, run_on_request_chain, run_on_response_chain}

-- Headers as they are walked, a value that is no text as `none`.
abbrev pub Headers : Type 0
Headers = List (String × Option String)

-- Some name of the list is this one in lower case.
abbrev pub is_among : List String → String → Bool
is_among names key = any (λ name. code_eq (lower (codes key)) (codes name)) names

-- The headers of the client that are not sent on.
unfoldable pub should_drop : String → Bool
should_drop = is_among (
    "transfer-encoding" ∷ "connection" ∷ "keep-alive" ∷ "accept-encoding" ∷ "host"
    ∷ "content-length" ∷ "authorization" ∷ "x-api-key" ∷ [])

unfoldable pub is_forward_header : String → Bool
is_forward_header name = not (
    is_among
      ("transfer-encoding" ∷ "connection" ∷ "keep-alive" ∷ "content-length" ∷ "host"
        ∷ "authorization" ∷ "x-api-key" ∷ [])
      name)

-- The `Content-Length` header announces too much. `parse` is `str::parse::<usize>`.
unfoldable pub body_too_large : {H : Type 0} → HeaderMap H → (String → Option ℕ) → ℕ → H → Bool
body_too_large hm parse max_body_size headers =
    elim (and_then (hm.get "content-length" headers) parse) [
      | none ↦ false
      | some len ↦ ltb max_body_size len
    ]

pub record UpstreamRequest (B : Type 0) : Type 0 where
  pub method : String
  pub url : String
  pub body : B
  pub headers : Headers

-- What the client gets: a response, or the response for an error.
pub data Reply (B : Type 0) : Type 0 where
  answered : ℕ → Headers → B → Reply B
  refused : ProxyError → Reply B

module _ {V H B : Type 0} (hm : HeaderMap H) (j : Json V B) where
  unfoldable pub validate_proxy_request : ProxyRequest H B → Result (Unit {0})
  validate_proxy_request req =
      let rest =
        if j.body_len req.body == 0 then err (bad_request "empty request body") else ok tt in
      elim (hm.get "content-type" req.headers) [
        | none ↦ rest
        | some ct ↦
            if not (starts_with ct "application/json")
            then err
                (bad_request ("unsupported content-type: " <> ct <> ". expected application/json"))
            else rest
      ]

module _ {H B : Type 0} (hm : HeaderMap H) where
  -- The request that `forward_to_upstream` sends.
  unfoldable pub upstream_request : ProxyRequest H B → ChannelConfig → UpstreamRequest B
  upstream_request req ch =
      let path = get_or req.path (keep_if (λ p. not (is_blank p)) ch.rewrite_path) in
      record {
        method = req.method;
        url = trim_slashes ch.url <> path;
        body = req.body;
        headers =
            keep (λ h. not (should_drop h.0)) (hm.iter req.headers)
            ++ (if not (is_blank ch.api_key)
                then ("Authorization", some ("Bearer " <> ch.api_key)) ∷ []
                else []);
      }

  -- Each header is inserted, so that the last one of a name stays.
  unfoldable pub build_axum_response : ProxyResponse H B → Reply B
  build_axum_response res =
      answered res.status (insert_all [] (keep (λ h. is_forward_header h.0) (hm.iter res.headers)))
        res.body

-- What the server is built with: the middlewares, the client that sends a request and reads the
-- whole answer, what makes JSON of a stream's usage, and the cost recorder.
pub record ProxyState (S M V H B : Type 0) : Type 0 where
  pub middlewares :
      List (ProxyMiddleware S (ProxyRequest H B) (ProxyResponse H B) (ConnectionContext M V))
  pub send : UpstreamRequest B → S → S × Result (ℕ × H × B)
  pub sse : B → V
  pub cost_recorder : Option (ConnectionContext M V → V → S → S × Result (Unit {0}))

module _ {S M V H B : Type 0} (hm : HeaderMap H) (j : Json V B) (state : ProxyState S M V H B) where
  -- The recording of costs, whose error is only logged.
  abbrev pub record_cost : ConnectionContext M V → ProxyResponse H B → S → S
  record_cost ctx res s = elim state.cost_recorder [
    | none ↦ s
    | some recorder ↦
        if res.is_streaming
        then (recorder ctx (state.sse res.body) s).0
        else elim (j.from_slice res.body) [ none ↦ s | some v ↦ (recorder ctx v s).0 ]
  ]

  -- What follows the response chain.
  abbrev pub finish :
      ConnectionContext M V → S × ProxyResponse H B × Result (Unit {0}) → S × Reply B
  finish ctx (s, res, ok u) = (record_cost ctx res s, build_axum_response hm res)
  finish ctx (s, res, err e) = (s, refused e)

  -- The two handlers of upstream responses.
  abbrev pub handle_response : Bool → ConnectionContext M V → S × Result (ℕ × H × B) → S × Reply B
  handle_response is_streaming ctx (s, err e) = (s, refused e)
  handle_response is_streaming ctx (s, ok (status, headers, body)) = finish ctx (
      run_on_response_chain state.middlewares s
        (record { status = status; headers = headers; body = body; is_streaming = is_streaming })
        ctx)

  -- The upstream call, to the channel that the context has.
  abbrev pub forward :
      Option ChannelConfig → S → ProxyRequest H B → ConnectionContext M V → S × Reply B
  forward none s req ctx = (s, refused (channel_selection "unknown"))
  forward (some ch) s req ctx =
      handle_response (wants_stream j req) ctx (state.send (upstream_request hm req ch) s)

  -- What follows the request chain.
  abbrev pub dispatch :
      S × ProxyRequest H B × ConnectionContext M V × Result (Unit {0}) → S × Reply B
  dispatch (s, req, ctx, err e) = (s, refused e)
  dispatch (s, req, ctx, ok u) = forward (read as_channel ext_selected_channel ctx) s req ctx

  -- What follows the validation.
  abbrev pub process :
      Result (Unit {0}) → S → ProxyRequest H B → ConnectionContext M V → S × Reply B
  process (err e) s req ctx = (s, refused e)
  process (ok u) s req ctx = dispatch (run_on_request_chain state.middlewares s req ctx)

  -- `handle_proxy_request`, from the validation on.
  unfoldable pub handle_proxy_request : S → ProxyRequest H B → ConnectionContext M V → S × Reply B
  handle_proxy_request s req ctx = process (validate_proxy_request hm j req) s req ctx
