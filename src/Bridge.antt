-- ===== src/Bridge.antt =====
-- crates/bridge/src/lib.rs: conversion of requests and responses between the formats of client and
-- upstream. The transforms are those of the crate `llm_bridge_core`, and are parameters: each gives
-- a converted message or the message of an error. `bridge_stream`, which runs the transforms of
-- streams in a thread, is not modelled.
pub mod Laws
mod Tests
use agent_proxy_rust.Common.{
  insert_all, ℕ, String, Option, none, some, Bool, true, false, ◌&&◌, List, [], ◌∷◌, if◌then◌else◌,
  ◌==◌, get_or, and_then, is_some, map, Table, not,
}
use agent_proxy_rust.Core.Error.{
  ProxyError, Result, ok, err, bad_request, internal, ok_or, ◌>>=◌, ◌>>◌, ◌<>◌,
}
use agent_proxy_rust.Core.Http.{HeaderMap, Json}
use agent_proxy_rust.Core.Types.{
  ApiFormat, anthropic_messages, openai_chat, openai_responses, future, format_eq, ProxyRequest,
  ProxyResponse, ConnectionContext, flag, put, read, as_flag, ext_bridge_reverse,
}

pub data ConversionDirection : Type 0 where
  anthropic_to_openai anthropic_to_responses openai_to_anthropic : ConversionDirection
  responses_to_anthropic responses_to_openai passthrough : ConversionDirection

abbrev resolve_known : ApiFormat → ApiFormat → ConversionDirection
resolve_known anthropic_messages openai_chat = anthropic_to_openai
resolve_known anthropic_messages openai_responses = anthropic_to_responses
resolve_known openai_chat anthropic_messages = openai_to_anthropic
resolve_known openai_responses anthropic_messages = responses_to_anthropic
resolve_known openai_responses openai_chat = responses_to_openai
resolve_known openai_chat openai_responses = responses_to_openai
resolve_known _ _ = passthrough

unfoldable pub resolve : ApiFormat → ApiFormat → ConversionDirection
resolve client upstream =
    if format_eq client upstream then passthrough else resolve_known client upstream

abbrev pub is_passthrough : ConversionDirection → Bool
is_passthrough passthrough = true
is_passthrough _ = false

-- `TransformRequest` and `TransformResponse`, which have the same fields.
pub record Message (B : Type 0) : Type 0 where
  pub headers : List (String × String)
  pub path : String
  pub body : B

-- What the crate makes of a message: another, or an error as its message.
pub data Outcome (A : Type 0) : Type 0 where
  made : A → Outcome A
  failed : String → Outcome A

-- `map_err(…)?` on an outcome.
abbrev pub map_err : {A : Type 0} → (String → ProxyError) → Outcome A → Result A
map_err wrap (made a) = ok a
map_err wrap (failed e) = err (wrap e)

abbrev pub and_also : {A B : Type 0} → Outcome A → (A → Outcome B) → Outcome B
and_also (made a) next = next a
and_also (failed e) next = failed e

-- The functions of `llm_bridge_core`. The stream transforms get the format of the upstream.
pub record Transforms (V B : Type 0) : Type 0 where
  pub validate_json_depth : V → Option String
  pub anthropic_to_openai : Message B → Outcome (Message B)
  pub anthropic_to_openai_responses : Message B → Outcome (Message B)
  pub openai_to_anthropic : Message B → Outcome (Message B)
  pub responses_to_anthropic : Message B → Outcome (Message B)
  pub responses_to_openai : Message B → Outcome (Message B)
  pub openai_response_to_anthropic_message : Message B → Outcome (Message B)
  pub anthropic_response_to_openai_response : Message B → Outcome (Message B)
  pub anthropic_response_to_responses_response : Message B → Outcome (Message B)
  pub stream_to_anthropic : B → ApiFormat → Outcome B
  pub stream_to_openai : B → ApiFormat → Outcome B
  pub stream_to_openai_responses : B → ApiFormat → Outcome B

-- `HeaderName::from_bytes`, `HeaderValue::from_str`, `HeaderMap::new`, `insert` and the lower-casing
-- of names.
pub record HeaderBuilder (H : Type 0) : Type 0 where
  pub parse_name : String → Outcome String
  pub parse_value : String → Outcome String
  pub empty : H
  pub insert : String → String → H → H
  pub to_lowercase : String → String

module _ {V B : Type 0} (tr : Transforms V B) where
  -- The transform of a request. The last arm is unreachable in the code, and panics there.
  unfoldable pub convert_request : Message B → ConversionDirection → Result (Message B)
  convert_request m anthropic_to_openai = map_err bad_request (tr.anthropic_to_openai m)
  convert_request m anthropic_to_responses =
      map_err bad_request (tr.anthropic_to_openai_responses m)
  convert_request m openai_to_anthropic = map_err bad_request (tr.openai_to_anthropic m)
  convert_request m responses_to_anthropic = map_err bad_request (tr.responses_to_anthropic m)
  convert_request m responses_to_openai = map_err bad_request (tr.responses_to_openai m)
  convert_request m passthrough = err (internal "passthrough handled earlier")

  unfoldable pub convert_response : Message B → ConversionDirection → Result (Message B)
  convert_response m openai_to_anthropic =
      map_err internal (tr.openai_response_to_anthropic_message m)
  convert_response m anthropic_to_openai =
      map_err internal (tr.anthropic_response_to_openai_response m)
  convert_response m anthropic_to_responses =
      map_err internal (tr.anthropic_response_to_responses_response m)
  convert_response m responses_to_anthropic =
      map_err internal (tr.openai_response_to_anthropic_message m)
  convert_response m responses_to_openai = map_err internal (
      and_also (tr.openai_response_to_anthropic_message m)
        tr.anthropic_response_to_responses_response)
  convert_response m passthrough = err (internal "passthrough handled earlier")

  -- The body of a stream, in the format of the client.
  unfoldable pub on_response_streaming :
      {H : Type 0} → ProxyResponse H B → ApiFormat → ApiFormat → Result (ProxyResponse H B)
  on_response_streaming res upstream anthropic_messages =
      map_err internal (tr.stream_to_anthropic res.body upstream) >>= λ b.
      ok (record res { body = b })
  on_response_streaming res upstream openai_chat =
      map_err internal (tr.stream_to_openai res.body upstream) >>= λ b. ok (record res { body = b })
  on_response_streaming res upstream openai_responses =
      map_err internal (tr.stream_to_openai_responses res.body upstream) >>= λ b.
      ok (record res { body = b })
  on_response_streaming res upstream (future n) = ok res

  unfoldable pub validate_input : {H : Type 0} → Json V B → ProxyRequest H B → Result (Unit {0})
  validate_input j req =
      ok_or (bad_request ("invalid JSON: " <> j.from_slice_error req.body)) (j.from_slice req.body)
      >>= λ value. elim (tr.validate_json_depth value) [
        | none ↦ ok tt
        | some e ↦ err (bad_request e)
      ]

-- The body is JSON with a field `error`.
abbrev pub is_upstream_error_body : {V B : Type 0} → Json V B → B → Bool
is_upstream_error_body j body = is_some (and_then (j.from_slice body) (j.get "error"))

-- The loop over the converted headers.
unfoldable pub build_headers :
    {H : Type 0} → HeaderBuilder H → List (String × String) → H → Result H
build_headers hb [] h = ok h
build_headers hb ((k, v) ∷ rest) h = map_err internal (hb.parse_name k) >>= λ name.
    map_err internal (hb.parse_value v) >>= λ value. build_headers hb rest (hb.insert name value h)

module _ {V H B : Type 0} (tr : Transforms V B) (j : Json V B) (hm : HeaderMap H)
    (hb : HeaderBuilder H) where
  -- The headers are collected in a map, where the last one of a name stays.
  unfoldable pub proxy_request_to_transform_request : ProxyRequest H B → Message B
  proxy_request_to_transform_request req = record {
    headers = insert_all [] (map (λ p. (hb.to_lowercase p.0, get_or "" p.1)) (hm.iter req.headers));
    path = req.path;
    body = req.body;
  }

  unfoldable pub apply_transform_response_to_request :
      ProxyRequest H B → Message B → Result (ProxyRequest H B)
  unfolding build_headers
  apply_transform_response_to_request req m = build_headers hb m.headers hb.empty >>= λ h.
      ok (record req { path = m.path; body = m.body; headers = h })

  -- What follows a direction that is no passthrough.
  unfoldable pub convert :
      {M : Type 0}
      → ConversionDirection
      → ProxyRequest H B
      → ConnectionContext M V
      → Result (ProxyRequest H B × ConnectionContext M V)
  convert direction req ctx =
      convert_request tr (proxy_request_to_transform_request req) direction >>= λ m.
      apply_transform_response_to_request req m >>= λ changed.
      ok (changed, put ext_bridge_reverse (flag true) ctx)

  unfoldable pub on_request :
      {M : Type 0}
      → ProxyRequest H B
      → ConnectionContext M V
      → Result (ProxyRequest H B × ConnectionContext M V)
  unfolding convert
  on_request req ctx =
      validate_input tr j req
      >> ok_or (bad_request "client protocol not detected") ctx.detected_format
      >>= λ client.
          ok_or (bad_request "upstream protocol not set by model-router") ctx.target_protocol
          >>= λ upstream.
              if is_passthrough (resolve client upstream)
              then ok (req, ctx)
              else convert (resolve client upstream) req ctx

  -- What follows the three tests of a response that is converted.
  unfoldable pub convert_back :
      ApiFormat → ApiFormat → ProxyResponse H B → Result (ProxyResponse H B)
  convert_back client upstream res =
      if is_passthrough (resolve upstream client)
      then ok res
      else if is_upstream_error_body j res.body
      then ok res
      else if res.is_streaming
      then on_response_streaming tr res upstream client
      else convert_response tr (record { headers = []; path = ""; body = res.body })
          (resolve upstream client)
        >>= λ m. ok (record res { body = m.body })

  unfoldable pub on_response :
      {M : Type 0} → ProxyResponse H B → ConnectionContext M V → Result (ProxyResponse H B)
  unfolding convert_back
  on_response res ctx =
      if not (get_or false (read as_flag ext_bridge_reverse ctx))
      then ok res
      else ok_or (internal "client protocol missing in response phase") ctx.detected_format
        >>= λ client.
            ok_or (internal "upstream protocol missing in response phase") ctx.target_protocol
            >>= λ upstream. convert_back client upstream res
