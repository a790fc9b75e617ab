-- ===== src/Bridge/Tests.antt =====
-- Instances of the laws of the bridge, with transforms that rename the path.
use agent_proxy_rust.Common.{
  insert_all, String, none, some, true, false, [], ◌≡◌, refl, Table, lookup, insert,
}
use agent_proxy_rust.Core.Error.{ok}
use agent_proxy_rust.Core.Types.{
  ApiFormat, openai_chat, openai_responses, anthropic_messages, ProxyRequest, ProxyResponse,
  ConnectionContext, new_context, unknown, read, as_flag, ext_bridge_reverse, put, flag,
}
use agent_proxy_rust.Bridge.{
  Transforms, HeaderBuilder, Message, Outcome, made, validate_input, on_request, resolve, convert,
  convert_request, build_headers, apply_transform_response_to_request,
  proxy_request_to_transform_request,
}
use agent_proxy_rust.Bridge.Laws.{request_of, on_request_swapped}
use agent_proxy_rust.Samples.{Value, value_json, object, field, text, end_of_object, table_headers}

abbrev to : String → Message Value → Outcome (Message Value)
to path m = made (record m { path = path })

abbrev transforms : Transforms Value Value
transforms = record {
  validate_json_depth = λ v. none;
  anthropic_to_openai = to "/v1/chat/completions";
  anthropic_to_openai_responses = to "/v1/responses";
  openai_to_anthropic = to "/v1/messages";
  responses_to_anthropic = to "/v1/messages";
  responses_to_openai = to "/v1/chat/completions";
  openai_response_to_anthropic_message = to "";
  anthropic_response_to_openai_response = to "";
  anthropic_response_to_responses_response = to "";
  stream_to_anthropic = λ b f. made b;
  stream_to_openai = λ b f. made b;
  stream_to_openai_responses = λ b f. made b;
}

abbrev builder : HeaderBuilder (Table String)
builder = record {
  parse_name = λ k. made k;
  parse_value = λ v. made v;
  empty = [];
  insert = insert;
  to_lowercase = λ k. k;
}

abbrev request : ProxyRequest (Table String) Value
request = record {
  method = "POST";
  path = "/v1/messages";
  headers = [];
  body = object (field "model" (text "m") end_of_object);
}

abbrev response : ProxyResponse (Table String) Value
response = record { status = 200; headers = []; body = object end_of_object; is_streaming = false }

abbrev between : ApiFormat → ApiFormat → ConnectionContext (Unit {0}) Value
between client upstream = record (new_context 0 1 unknown none (some client)) {
  target_protocol = some upstream;
}

valid : validate_input transforms value_json request ≡ ok tt
unfolding validate_input
valid = refl

unmarked : read as_flag ext_bridge_reverse (between openai_chat openai_chat) ≡ none
unfolding lookup
unmarked = refl

abbrev mixed : ConnectionContext (Unit {0}) Value
mixed = between anthropic_messages openai_chat

converts :
    on_request transforms value_json table_headers builder request mixed
    ≡ ok
        (record request { path = "/v1/chat/completions" }, put ext_bridge_reverse (flag true) mixed)
unfolding on_request convert convert_request resolve build_headers
    apply_transform_response_to_request proxy_request_to_transform_request validate_input insert_all
converts = refl

on_request_swapped_example :
    request_of (
      on_request transforms value_json table_headers builder request
        (between openai_chat openai_responses))
    ≡ request_of (
        on_request transforms value_json table_headers builder request
          (between openai_responses openai_chat))
on_request_swapped_example =
    on_request_swapped transforms value_json table_headers builder request
      (between openai_chat openai_responses) (between openai_responses openai_chat) valid
      (record { detected = refl; target = refl }) (record { detected = refl; target = refl })
