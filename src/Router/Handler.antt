-- ===== src/Router/Handler.antt =====
-- The middleware calls of crates/model-router/src/lib.rs. What a refused call leaves of the request
-- and of the context is not modelled: the server drops both. `describe` is the message of the
-- refusal for incompatible protocols, which a formatter writes.
pub mod Laws
pub mod Marks
pub mod Names
mod Tests
use agent_proxy_rust.Router.Health
use agent_proxy_rust.Common.{
  ℕ, ◌+◌, String, Option, none, some, Bool, true, false, not, ◌&&◌, ◌||◌, if◌then◌else◌, ◌==◌,
  is_blank, is_empty, get_or, and_then, Table, lookup, insert, u64,
}
use agent_proxy_rust.Core.Error.{Result, ok, err, bad_request, channel_selection, ok_or, ◌>>=◌}
use agent_proxy_rust.Core.Http.{StatusClass, Json}
use agent_proxy_rust.Core.Types.{
  ProxyRequest, ProxyResponse, ConnectionContext, ChannelConfig, channel, mapping, put, read,
  as_mapping, ext_selected_channel, ext_selected_mapping, selected_name, ApiFormat,
}
use agent_proxy_rust.Router.Billing.{
  Pricing, PricingJson, ChannelBilling, metered, flat_fee, is_flat_fee, pricing,
}
use agent_proxy_rust.Router.Quota.{QuotaUsage, record_usage}
use agent_proxy_rust.Router.Protocol.{
  resolve_target_protocol, resolve_upstream_url, compatible_protocol,
}
use agent_proxy_rust.Router.Select.{
  ResolvedChannel, ResolvedMapping, Candidate, RouterState, Env, find_candidates, select_channel,
  usage_of,
}

pub record SelectedMappingInfo (F : Type 0) : Type 0 where
  pub channel_id : String
  pub mapping_id : String
  pub client_name : String
  pub upstream_name : String
  pub is_flat_fee : Bool
  pub pricing : Option (Pricing F)
  pub pricing_snapshot_json : String

-- The pricing that is kept for the audit trail.
abbrev pub snapshot : {F : Type 0} → PricingJson F → ChannelBilling F → String
snapshot pj (metered p) = get_or "" (pj.print_pricing p)
snapshot pj (flat_fee hint quota on_exhausted) = "{\"type\":\"flat_fee\"}"

abbrev pub selected_info : {F : Type 0} → PricingJson F → Candidate F → SelectedMappingInfo F
selected_info pj (ch, m) = record {
  channel_id = ch.channel_id;
  mapping_id = m.mapping_id;
  client_name = m.client_name;
  upstream_name = m.upstream_name;
  is_flat_fee = is_flat_fee m.billing;
  pricing = pricing m.billing;
  pricing_snapshot_json = snapshot pj m.billing;
}

-- The key that the admin API set, or else the one that was loaded.
abbrev pub key_of : {F : Type 0} → RouterState F → ResolvedChannel F → String
key_of st ch = get_or ch.api_key (lookup ch.channel_id st.channel_api_keys)

-- The channel as the later middlewares see it.
abbrev pub channel_config :
    {F : Type 0}
    → RouterState F
    → ResolvedChannel F
    → ApiFormat
    → String × Option String
    → ChannelConfig
channel_config st ch target (url, rewrite_path) = record {
  url = url;
  api_key = key_of st ch;
  protocol = target;
  name = ch.channel_name;
  rewrite_path = rewrite_path;
}

-- The `model` of a body, empty where it is missing or no text.
abbrev pub model_of : {V B : Type 0} → Json V B → V → String
model_of j body = get_or "" (and_then (j.get "model" body) j.as_str)

module _ {F V H B : Type 0} (j : Json V B) (pj : PricingJson F) (describe : Candidate F → String)
    (st : RouterState F) where
  -- What follows the choice of a channel and a mapping.
  unfoldable pub route :
      Candidate F
      → V
      → ProxyRequest H B
      → ConnectionContext (SelectedMappingInfo F) V
      → Result (ProxyRequest H B × ConnectionContext (SelectedMappingInfo F) V)
  route (ch, m) body req ctx =
      let renamed = j.set_str "model" m.upstream_name body in
      ok_or (bad_request (j.to_vec_error renamed)) (j.to_vec renamed) >>= λ new_body.
      resolve_target_protocol ch.force_protocol ctx.detected_format ch.protocols >>= λ resolved.
      compatible_protocol (describe (ch, m)) m.allowed_protocols ch.protocols resolved >>= λ target.
      resolve_upstream_url target ch.protocols >>= λ address. ok (
        record req { body = new_body },
        put ext_selected_mapping (mapping (selected_info pj (ch, m))) (
            put ext_selected_channel (channel (channel_config st ch target address))
              (record ctx { target_protocol = some target })),
      )

  -- What follows the parsing of the body.
  unfoldable pub on_body :
      Env
      → V
      → ProxyRequest H B
      → ConnectionContext (SelectedMappingInfo F) V
      → RouterState F × Result (ProxyRequest H B × ConnectionContext (SelectedMappingInfo F) V)
  on_body env body req ctx =
      let client_name = model_of j body in
      let candidates = find_candidates st.channels client_name in
      if is_blank client_name
      then (st, err (bad_request "request body missing 'model' field"))
      else if is_empty candidates
      then (st, err (channel_selection client_name))
      else let (usage, picked) = select_channel env st candidates client_name in
        (record st { quota_usage = usage }, picked >>= λ c. route c body req ctx)

  unfoldable pub on_request :
      Env
      → ProxyRequest H B
      → ConnectionContext (SelectedMappingInfo F) V
      → RouterState F × Result (ProxyRequest H B × ConnectionContext (SelectedMappingInfo F) V)
  on_request env req ctx = elim (j.from_slice req.body) [
    | none ↦ (st, err (bad_request (j.from_slice_error req.body)))
    | some body ↦ on_body env body req ctx
  ]

-- The tokens of a response. The sum of two `u64` wraps, as in a release build.
unfoldable pub extract_token_count : {V B : Type 0} → Json V B → V → ℕ
extract_token_count j body = elim (j.get "usage" body) [
  | none ↦ 0
  | some u ↦ u64 (
      get_or 0 (and_then (j.get "input_tokens" u) j.as_u64)
      + get_or 0 (and_then (j.get "output_tokens" u) j.as_u64))
]

unfoldable pub mark_healthy : String → Table Health.ChannelState → Table Health.ChannelState
mark_healthy id health = elim (lookup id health) [
  | none ↦ health
  | some s ↦ insert id (Health.record_success s) health
]

unfoldable pub mark_rate_limited :
    ℕ → String → Table Health.ChannelState → Table Health.ChannelState
mark_rate_limited now id health =
    insert id (Health.mark_rate_limited now (get_or Health.new_state (lookup id health))) health

unfoldable pub mark_unhealthy_immediate :
    ℕ → String → Table Health.ChannelState → Table Health.ChannelState
mark_unhealthy_immediate now id health =
    insert id (Health.mark_unhealthy now (get_or Health.new_state (lookup id health))) health

-- The health map after a response of this status.
abbrev pub mark :
    StatusClass → ℕ → ℕ → String → Table Health.ChannelState → Table Health.ChannelState
mark sc now status id health =
    if sc.is_server_error status || status == 401
    then mark_unhealthy_immediate now id health
    else if sc.is_client_error status && not (status == 429)
    then health
    else if status == 429
    then mark_rate_limited now id health
    else mark_healthy id health

module _ {F V B : Type 0} (j : Json V B) (sc : StatusClass) where
  -- The usage map after the response, where the selected mapping is a flat fee.
  abbrev pub charge : ℕ → B → Option (SelectedMappingInfo F) → Table QuotaUsage → Table QuotaUsage
  charge month body none usage = usage
  charge month body (some info) usage =
      if info.is_flat_fee
      then insert info.mapping_id
          (record_usage month
            (elim (j.from_slice body) [ none ↦ 0 | some v ↦ extract_token_count j v ])
            (usage_of month info.mapping_id usage))
          usage
      else usage

  unfoldable pub on_response :
      {H : Type 0}
      → Env
      → ProxyResponse H B
      → ConnectionContext (SelectedMappingInfo F) V
      → RouterState F
      → RouterState F × Result (Unit {0})
  on_response env res ctx st =
      let id = selected_name ctx in
      if is_blank id then (st, ok tt) else (
        record st {
          quota_usage =
              charge env.month res.body (read as_mapping ext_selected_mapping ctx) st.quota_usage;
          health = mark sc env.now res.status id st.health;
        },
        ok tt,
      )
