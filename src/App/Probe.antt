-- ===== src/App/Probe.antt =====
-- apps/server/src/health_probe.rs: the probe of a channel. The HTTP client is a parameter: what a
-- probe request is answered, with the latency that the clock shows. A JSON body is a tree.
pub mod Laws
use agent_proxy_rust.Core.Error.{◌<>◌}
use agent_proxy_rust.Core.Float.{Float}
use agent_proxy_rust.Common.{
  ℕ, String, Option, none, some, Bool, true, false, not, ◌&&◌, ◌||◌, List, [], ◌∷◌, if◌then◌else◌,
  str_eq, ◌==◌, leb, find, keep, is_blank, is_empty, first, get_or, trim_slashes, and_then,
}
use agent_proxy_rust.Storage.Types.{Channel, ModelMapping, Model}
use agent_proxy_rust.Storage.Sql.{Outcome, failed, done}
use agent_proxy_rust.Router.Protocol.{ProtocolEntry}

pub data ProbeResult : Type 0 where
  healthy invalid_key rate_limited unreachable no_models no_protocols unknown : ProbeResult

unfoldable pub is_healthy : ProbeResult → Bool
is_healthy healthy = true
is_healthy rate_limited = true
is_healthy _ = false

unfoldable pub as_health_status : ProbeResult → String
as_health_status healthy = "Healthy"
as_health_status rate_limited = "Healthy"
as_health_status invalid_key = "Degraded"
as_health_status unreachable = "Degraded"
as_health_status unknown = "Degraded"
as_health_status no_models = "Unavailable"
as_health_status no_protocols = "Unavailable"

pub record ProbeResponse : Type 0 where
  pub result : ProbeResult
  pub model : String
  pub latency_ms : ℕ
  pub http_status : ℕ

-- The two shapes of a body: that of the chat formats, and that of the responses format.
pub data ProbeBody : Type 0 where
  chat_body : String → ℕ → String → String → ProbeBody
  input_body : String → String → ProbeBody

pub record ProbeRequest : Type 0 where
  pub url : String
  pub body : ProbeBody
  pub headers : List (String × String)

-- What the client answers: it cannot be built; a status; or an error, with a status if it has one.
pub data Answer : Type 0 where
  no_client : Answer
  status : ℕ → ℕ → Answer
  network_error : ℕ → Option ℕ → Answer

abbrev pub no_protocol_response : ProbeResponse
no_protocol_response = record { result = no_protocols; model = ""; latency_ms = 0; http_status = 0 }

abbrev pub no_model_response : ProbeResponse
no_model_response = record { result = no_models; model = ""; latency_ms = 0; http_status = 0 }

unfoldable pub build_probe_request : ProtocolEntry → String → Option (String × ProbeBody)
build_probe_request protocol model_name =
    let base_url = trim_slashes protocol.base_url in
    if str_eq protocol.protocol "openai_chat"
    then some (base_url <> "/v1/chat/completions", chat_body model_name 1 "user" "hi")
    else if str_eq protocol.protocol "anthropic_messages"
    then some (base_url <> "/v1/messages", chat_body model_name 1 "user" "hi")
    else if str_eq protocol.protocol "openai_responses"
    then some (base_url <> "/v1/responses", input_body model_name "hi")
    else none

-- The headers: a channel without a key sends none.
unfoldable pub probe_headers : Channel → ProtocolEntry → List (String × String)
probe_headers channel protocol =
    ("Content-Type", "application/json")
    ∷ (if is_blank channel.api_key
        then []
        else if str_eq protocol.protocol "anthropic_messages"
        then ("x-api-key", channel.api_key) ∷ ("anthropic-version", "2023-06-01") ∷ []
        else ("Authorization", "Bearer " <> channel.api_key) ∷ [])

unfoldable pub result_of_status : ℕ → ProbeResult
result_of_status code =
    if leb 200 code && leb code 299
    then healthy
    else if code == 401 || code == 403
    then invalid_key
    else if code == 429
    then rate_limited
    else unknown

abbrev pub interpret : String → Answer → ProbeResponse
interpret model no_client = record {
  result = unreachable;
  model = model;
  latency_ms = 0;
  http_status = 0;
}
interpret model (status code latency) = record {
  result = result_of_status code;
  model = model;
  latency_ms = latency;
  http_status = code;
}
interpret model (network_error latency code) = record {
  result = unreachable;
  model = model;
  latency_ms = latency;
  http_status = get_or 0 code;
}

unfoldable pub send_probe :
    (ProbeRequest → Answer) → Channel → ProtocolEntry → String → ProbeBody → String → ProbeResponse
send_probe client channel protocol url body model_name =
    interpret model_name
      (client (record { url = url; body = body; headers = probe_headers channel protocol }))

abbrev pub ok_list : {A : Type 0} → Outcome (List A) → Option (List A)
ok_list (failed e) = none
ok_list (done rows) = some rows

abbrev pub probe_with :
    (ProbeRequest → Answer)
    → Channel
    → ProtocolEntry
    → String
    → Option (String × ProbeBody)
    → ProbeResponse
probe_with client channel protocol model none = record {
  result = no_protocols;
  model = model;
  latency_ms = 0;
  http_status = 0;
}
probe_with client channel protocol model (some (url, body)) =
    send_probe client channel protocol url body model

abbrev pub probe_model :
    (ProbeRequest → Answer) → Channel → ProtocolEntry → Option String → ProbeResponse
probe_model client channel protocol none = no_model_response
probe_model client channel protocol (some model) =
    probe_with client channel protocol model (build_probe_request protocol model)

abbrev pub probe_first :
    (ProbeRequest → Answer) → Channel → Option String → Option ProtocolEntry → ProbeResponse
probe_first client channel model none = no_protocol_response
probe_first client channel model (some protocol) = probe_model client channel protocol model

module _ {F : Type 0} (fl : Float F) where
  abbrev pub total_price : Model F → F
  total_price m = fl.add m.price_input m.price_output

  -- `total_price < best` on numbers that compare.
  abbrev pub improves : F → Option (F × String) → Bool
  improves price none = true
  improves price (some (best, name)) = not (fl.le best price)

  -- The loop over the enabled mappings, with the cheapest so far.
  unfoldable pub cheapest :
      List (Model F) → List ModelMapping → Option (F × String) → Option (F × String)
  cheapest models [] best = best
  cheapest models (m ∷ ms) best =
      cheapest models ms (elim (find (λ model. str_eq model.client_name m.client_name) models) [
        | none ↦ best
        | some model ↦
            (if improves (total_price model) best
              then some (total_price model, m.upstream_name)
              else best)
      ])

  abbrev pub name_of : Option (F × String) → Option String
  name_of none = none
  name_of (some (price, name)) = some name

  unfoldable pub find_cheapest_model :
      Outcome (List ModelMapping) → Outcome (List (Model F)) → Option String
  find_cheapest_model mappings models = and_then (ok_list mappings) λ ms.
      if is_empty (keep (λ m. m.enabled) ms)
      then none
      else and_then (ok_list models)
          λ all_models. name_of (cheapest all_models (keep (λ m. m.enabled) ms) none)

  unfoldable pub probe_channel :
      (String → Option (List ProtocolEntry))
      → (ProbeRequest → Answer)
      → Outcome (List ModelMapping)
      → Outcome (List (Model F))
      → Channel
      → ProbeResponse
  probe_channel parse client mappings models channel =
      probe_first client channel (find_cheapest_model mappings models)
        (first (get_or [] (parse channel.protocols)))
