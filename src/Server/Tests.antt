-- ===== src/Server/Tests.antt =====
-- Instances of the laws of the server, with a state that counts the calls of the upstream.
use agent_proxy_rust.Common.{
  ℕ, ◌+◌, String, Option, none, some, false, List, [], ◌∷◌, ◌≡◌, refl, lookup,
}
use agent_proxy_rust.Core.Error.{Result, ok, err, unauthorized}
use agent_proxy_rust.Core.Http.{HeaderMap}
use agent_proxy_rust.Core.Middleware.{run_on_request_chain}
use agent_proxy_rust.Core.Types.{
  openai_chat, ProxyRequest, ConnectionContext, ChannelConfig, new_context, unknown, put,
  ext_selected_channel, Ext,
}
use agent_proxy_rust.Server.{ProxyState, should_drop, upstream_request, handle_proxy_request}
use agent_proxy_rust.Server.Laws.{handle_proxy_request-unsent}
use agent_proxy_rust.Samples.{Value, value_json, object, end_of_object}

abbrev Lines : Type 0
Lines = List (String × Option String)

-- Headers as a list.
abbrev line_headers : HeaderMap Lines
line_headers = record { get = λ k h. none; contains_key = λ k h. false; iter = λ h. h }

abbrev request : ProxyRequest Lines Value
request = record {
  method = "POST";
  path = "/v1/messages";
  headers = ("Authorization", some "secret") ∷ ("accept", some "*/*") ∷ [];
  body = object end_of_object;
}

abbrev target : ChannelConfig
target = record {
  url = "https://up/";
  api_key = "k";
  protocol = openai_chat;
  name = "ds";
  rewrite_path = none;
}

sent : upstream_request line_headers request target ≡ record {
  method = "POST";
  url = "https://up/v1/messages";
  body = object end_of_object;
  headers = ("accept", some "*/*") ∷ ("Authorization", some "Bearer k") ∷ [];
}
unfolding upstream_request should_drop
sent = refl

abbrev Calls : Type 0
Calls = ℕ

abbrev Context : Type 0
Context = ConnectionContext (Unit {0}) Value

abbrev counting : ProxyState Calls (Unit {0}) Value Lines Value
counting = record {
  middlewares = [];
  send = λ r s. (s + 1, ok (200, [], r.body));
  sse = λ b. b;
  cost_recorder = none;
}

abbrev failing : Context → Value → Calls → Calls × Result (Unit {0})
failing ctx v s = (s + 100, err unauthorized)

abbrev context : Context
context =
    put ext_selected_channel (Ext.channel target) (new_context 0 1 unknown none (some openai_chat))

abbrev plain : Context
plain = new_context 0 1 unknown none (some openai_chat)

handle_proxy_request-unsent_example :
    handle_proxy_request line_headers value_json counting 0 request plain
    ≡ handle_proxy_request line_headers value_json
        (record counting { send = λ r s. (s + 50, err unauthorized) })
        0
        request
        plain
unfolding lookup run_on_request_chain
handle_proxy_request-unsent_example =
    handle_proxy_request-unsent line_headers value_json counting (λ r s. (s + 50, err unauthorized))
      0 request plain refl
