-- ===== src/Bridge/Laws.antt =====
-- When the bridge leaves a message as it is, and what it leaves where it converts.
use agent_proxy_rust.Common.{
  none, some, Bool, true, false, ◌||◌, ◌≡◌, refl, sym, ◌∙◌, ap, subst, arith, if◌then◌else◌,
  lookup-insert_self,
}
use agent_proxy_rust.Core.Error.{Result, ok, err, ◌>>=◌, >>=-eq-ok}
use agent_proxy_rust.Core.Http.{HeaderMap, Json}
use agent_proxy_rust.Core.Types.{
  ApiFormat, anthropic_messages, openai_chat, openai_responses, future, format_eq, ProxyRequest,
  ProxyResponse, ConnectionContext, flag, put, read, as_flag, ext_bridge_reverse,
}
use agent_proxy_rust.Bridge.{
  ConversionDirection, resolve, is_passthrough, Transforms, HeaderBuilder, Message, validate_input,
  convert, convert_request, on_request, on_response, proxy_request_to_transform_request,
  apply_transform_response_to_request, build_headers,
}

abbrev pub is_future : ApiFormat → Bool
is_future (future n) = true
is_future _ = false

-- Two formats are left as they are exactly when they are the same or one of them is none of the three
-- that the bridge knows.
resolve_lem :
    (client upstream : ApiFormat)
    → is_passthrough (resolve client upstream)
      ≡ (format_eq client upstream || is_future client || is_future upstream)
unfolding resolve
resolve_lem anthropic_messages anthropic_messages = refl
resolve_lem anthropic_messages openai_chat = refl
resolve_lem anthropic_messages openai_responses = refl
resolve_lem anthropic_messages (future n) = refl
resolve_lem openai_chat anthropic_messages = refl
resolve_lem openai_chat openai_chat = refl
resolve_lem openai_chat openai_responses = refl
resolve_lem openai_chat (future n) = refl
resolve_lem openai_responses anthropic_messages = refl
resolve_lem openai_responses openai_chat = refl
resolve_lem openai_responses openai_responses = refl
resolve_lem openai_responses (future n) = refl
resolve_lem (future m) anthropic_messages = refl
resolve_lem (future m) openai_chat = refl
resolve_lem (future m) openai_responses = refl
resolve_lem (future m) (future n) = ground arith

ok-injective : {A : Type 0} {a b : A} → ok a ≡ ok b → a ≡ b
ok-injective h = cc

module _ {V H B M : Type 0} (tr : Transforms V B) (j : Json V B) (hm : HeaderMap H)
    (hb : HeaderBuilder H) (req : ProxyRequest H B) (ctx : ConnectionContext M V) where
  -- The formats of client and upstream, as the earlier middlewares have set them.
  pub record Between (client upstream : ApiFormat) : Type 0 where
    pub detected : ctx.detected_format ≡ some client
    pub target : ctx.target_protocol ≡ some upstream

  after_checks :
      (client upstream : ApiFormat)
      → validate_input tr j req ≡ ok tt
      → Between client upstream
      → on_request tr j hm hb req ctx ≡ (
          if is_passthrough (resolve client upstream)
          then ok (req, ctx)
          else convert tr j hm hb (resolve client upstream) req ctx)
  unfolding on_request
  after_checks client upstream valid b = rw (valid, b.detected, b.target)

  -- Where client and upstream speak the same format, or one that the bridge does not know, a valid
  -- request goes on as it is, and so does every response to it, as long as no conversion was
  -- marked before.
  pub on_request_transparent :
      (client upstream : ApiFormat) (res : ProxyResponse H B)
      → validate_input tr j req ≡ ok tt
      → Between client upstream
      → (format_eq client upstream || is_future client || is_future upstream) ≡ true
      → read as_flag ext_bridge_reverse ctx ≡ none
      → (on_request tr j hm hb req ctx ≡ ok (req, ctx)) × (on_response tr j hm hb res ctx ≡ ok res)
  unfolding on_response
  on_request_transparent client upstream res valid b same unmarked =
      (after_checks client upstream valid b ∙ rw (resolve_lem, same), rw unmarked)

  applied :
      (m : Message B) {changed : ProxyRequest H B}
      → apply_transform_response_to_request tr j hm hb req m ≡ ok changed
      → (changed.path ≡ m.path) × (changed.body ≡ m.body)
  unfolding apply_transform_response_to_request
  applied m h =
      let (built, made_headers, same) = >>=-eq-ok (build_headers hb m.headers hb.empty) _ h in
      subst (λ r. (r.path ≡ m.path) × (r.body ≡ m.body)) (ok-injective same) (refl, refl)

  -- The request after the transform of this direction, and the mark in the context.
  abbrev pub Converted : ConversionDirection → ProxyRequest H B → ConnectionContext M V → Type 0
  Converted d req' ctx' =
      (m : Message B) × (convert_request tr (proxy_request_to_transform_request tr j hm hb req) d
        ≡ ok m)
      × (req'.path ≡ m.path)
      × (req'.body ≡ m.body)
      × (read as_flag ext_bridge_reverse ctx' ≡ some true)

  convert-Converted :
      (d : ConversionDirection) {req' : ProxyRequest H B} {ctx' : ConnectionContext M V}
      → convert tr j hm hb d req ctx ≡ ok (req', ctx')
      → Converted d req' ctx'
  unfolding convert
  convert-Converted d h =
      let (m, e, h1) =
        >>=-eq-ok (convert_request tr (proxy_request_to_transform_request tr j hm hb req) d) _ h in
      let (changed, done, h2) =
        >>=-eq-ok (apply_transform_response_to_request tr j hm hb req m) _ h1 in
      let (same_path, same_body) = applied m done in
      subst (λ p. Converted d p.0 p.1) (ok-injective h2)
        (m, e, same_path, same_body, simp (lookup-insert_self))

  -- A request that is converted has the path and the body that the transform for the two formats
  -- gives, and the context is marked, so that the responses are converted back.
  pub on_request-Converted :
      (client upstream : ApiFormat) {req' : ProxyRequest H B} {ctx' : ConnectionContext M V}
      → validate_input tr j req ≡ ok tt
      → Between client upstream
      → (format_eq client upstream || is_future client || is_future upstream) ≡ false
      → on_request tr j hm hb req ctx ≡ ok (req', ctx')
      → Converted (resolve client upstream) req' ctx'
  on_request-Converted client upstream {req'} {ctx'} valid b differ h =
      let direct : (if is_passthrough (resolve client upstream)
            then ok (req, ctx)
            else convert tr j hm hb (resolve client upstream) req ctx)
          ≡ ok (req', ctx') =
        sym (after_checks client upstream valid b) ∙ h in
      convert-Converted (resolve client upstream) (rw (resolve_lem, differ) at direct)

-- The request of a result.
abbrev pub request_of : {Q C : Type 0} → Result (Q × C) → Result Q
request_of (ok (q, c)) = ok q
request_of (err e) = err e

request_of-bind :
    {A Q C : Type 0} (m : Result A) (f : A → Result Q) (c : C)
    → request_of (m >>= λ a. f a >>= λ q. ok (q, c)) ≡ (m >>= f)
request_of-bind (ok a) f c = request_of-ok (f a) c
  where
    request_of-ok : {Q C : Type 0} (r : Result Q) (c : C) → request_of (r >>= λ q. ok (q, c)) ≡ r
    request_of-ok (ok q) c = refl
    request_of-ok (err e) c = refl
request_of-bind (err e) f c = refl

module _ {V H B M : Type 0} (tr : Transforms V B) (j : Json V B) (hm : HeaderMap H)
    (hb : HeaderBuilder H) where
  convert-context :
      (d : ConversionDirection) (req : ProxyRequest H B) (a b : ConnectionContext M V)
      → request_of (convert tr j hm hb d req a) ≡ request_of (convert tr j hm hb d req b)
  unfolding convert
  convert-context d req a b =
      request_of-bind (convert_request tr (proxy_request_to_transform_request tr j hm hb req) d)
        (apply_transform_response_to_request tr j hm hb req) (put ext_bridge_reverse (flag true) a)
      ∙ sym (
          request_of-bind (convert_request tr (proxy_request_to_transform_request tr j hm hb req) d)
            (apply_transform_response_to_request tr j hm hb req)
            (put ext_bridge_reverse (flag true) b))

  -- A request of a Chat client to an upstream for Responses is converted as if it came from a client
  -- for Responses and went to an upstream for Chat.
  pub on_request_swapped :
      (req : ProxyRequest H B) (a b : ConnectionContext M V)
      → validate_input tr j req ≡ ok tt
      → Between tr j hm hb req a openai_chat openai_responses
      → Between tr j hm hb req b openai_responses openai_chat
      → request_of (on_request tr j hm hb req a) ≡ request_of (on_request tr j hm hb req b)
  unfolding resolve
  on_request_swapped req a b valid to_responses to_chat =
      ap request_of (after_checks tr j hm hb req a openai_chat openai_responses valid to_responses)
      ∙ convert-context (resolve openai_chat openai_responses) req a b
      ∙ sym
          (ap request_of (after_checks tr j hm hb req b openai_responses openai_chat valid to_chat))
