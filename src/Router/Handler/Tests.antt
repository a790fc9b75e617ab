-- ===== src/Router/Handler/Tests.antt =====
-- A request that the router passes on and the responses to it.
use mathlib.Core.List.{Memᴰ}
use agent_proxy_rust.Common.{
  ℕ, String, none, false, [], ◌∷◌, ◌≡◌, refl, is_blank, lookup, insert, sort_desc, inl,
}
use agent_proxy_rust.Core.Error.{ok}
use agent_proxy_rust.Core.Types.{
  ProxyRequest, ProxyResponse, ConnectionContext, openai_chat, selected_name,
}
use agent_proxy_rust.Router.Protocol.{
  resolve_target_protocol, resolve_upstream_url, compatible_protocol,
}
use agent_proxy_rust.Router.Quota.{is_within_quota}
use agent_proxy_rust.Router.Select.{
  Candidate, RouterState, is_healthy, select_channel, find_candidates, flat_loop, try_flat_fee,
  has_api_key,
}
use agent_proxy_rust.Router.Handler.{SelectedMappingInfo, on_request, on_response, on_body, route}
use agent_proxy_rust.Router.Handler.Laws.{Routed, Sent, on_request-Routed, routed_context}
use agent_proxy_rust.Router.Handler.Names.{on_response_unnoticed}
use agent_proxy_rust.Router.Samples.{flat, state_of, env, prices, request, context, entry}
use agent_proxy_rust.Samples.{
  Value, value_json, object, field, text, end_of_object, status_class, status_class-IsStatusClass,
}

abbrev st : RouterState ℕ
st = state_of (flat.0 ∷ [])

abbrev message : Candidate ℕ → String
message c = ""

abbrev sent_request : ProxyRequest (Unit {0}) Value
sent_request = record request { body = object (field "model" (text "m-large") end_of_object) }

abbrev sent_context : ConnectionContext (SelectedMappingInfo ℕ) Value
sent_context = routed_context prices st flat openai_chat ("https://up", none) context

passed :
    (on_request value_json prices message st env request context).1
    ≡ ok (sent_request, sent_context)
unfolding on_request on_body route select_channel find_candidates flat_loop try_flat_fee has_api_key
    is_healthy is_within_quota lookup insert sort_desc resolve_target_protocol resolve_upstream_url
    compatible_protocol
passed = refl

on_request-Routed_example :
    Routed value_json prices message st env request sent_request sent_context
on_request-Routed_example =
    on_request-Routed value_json prices message st env request context passed

abbrev response : ProxyResponse (Unit {0}) Value
response = record { status = 503; headers = tt; body = object end_of_object; is_streaming = false }

named : is_blank (selected_name sent_context) ≡ false
unfolding lookup insert
named = refl

sent :
    Sent value_json prices message st flat
      (object (field "model" (text "m") end_of_object))
      request
      sent_request
      sent_context
unfolding lookup insert
sent = record {
  target = openai_chat;
  address = ("https://up", none);
  served = (refl, refl);
  admitted = inl refl;
  addressed = record {
    entry = entry;
    listed = Memᴰ.head refl;
    named = refl;
    url = refl;
    rewrite = refl;
    reachable = refl;
  };
  protocol_set = refl;
  channel_set = refl;
  mapping_set = refl;
  renamed = refl;
  kept = (refl, refl, refl);
}

on_response_unnoticed_example :
    is_healthy (on_response value_json status_class env response sent_context st).0 7 "a"
    ≡ is_healthy st 7 "a"
on_response_unnoticed_example =
    on_response_unnoticed value_json prices message st flat status_class
      (object (field "model" (text "m") end_of_object)) request sent_request sent_context env
      response st 7 status_class-IsStatusClass sent refl refl
