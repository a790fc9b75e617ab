-- ===== src/Router/Samples.antt =====
-- Channels, mappings and a state for the witnesses, with whole numbers as prices.
use agent_proxy_rust.Common.{ℕ, String, none, some, true, List, [], ◌∷◌}
use agent_proxy_rust.Core.Types.{ProxyRequest, new_context, unknown, openai_chat, ConnectionContext}
use agent_proxy_rust.Router.Billing.{
  ChannelBilling, metered, flat_fee, credits, max_requests, block, PricingJson, ExhaustedAction,
}
use agent_proxy_rust.Router.Quota.{QuotaUsage}
use agent_proxy_rust.Router.Protocol.{ProtocolEntry}
use agent_proxy_rust.Router.Select.{ResolvedMapping, ResolvedChannel, Candidate, RouterState, Env}
use agent_proxy_rust.Router.Handler.{SelectedMappingInfo}
use agent_proxy_rust.Samples.{Value, object, field, text, end_of_object}

abbrev pub entry : ProtocolEntry
entry = record { protocol = "openai_chat"; base_url = "https://up"; rewrite_path = none }

abbrev pub offer : String → ChannelBilling ℕ → ResolvedMapping ℕ
offer id billing = record {
  mapping_id = id;
  client_name = "m";
  upstream_name = "m-large";
  billing = billing;
  allowed_protocols = [];
}

abbrev pub house : String → ℕ → ResolvedMapping ℕ → ResolvedChannel ℕ
house id priority m = record {
  channel_id = id;
  channel_name = "House";
  api_key = "key";
  protocols = entry ∷ [];
  enabled = true;
  force_protocol = none;
  priority = priority;
  mappings = m ∷ [];
}

-- A flat fee of ten requests a month, and a price per use.
abbrev pub ten_requests : ExhaustedAction → ChannelBilling ℕ
ten_requests action = flat_fee none (some (max_requests 10)) action

abbrev pub per_use : ChannelBilling ℕ
per_use = metered (credits none none (some 2))

abbrev pub flat : Candidate ℕ
flat = let m = offer "fresh" (ten_requests block) in (house "a" 1 m, m)

abbrev pub spent : ExhaustedAction → Candidate ℕ
spent action = let m = offer "spent" (ten_requests action) in (house "b" 9 m, m)

abbrev pub paid : Candidate ℕ
paid = let m = offer "paid" per_use in (house "c" 5 m, m)

abbrev pub used : QuotaUsage
used = record { requests_this_month = 10; tokens_this_month = 0; month_key = 24313 }

abbrev pub state_of : List (ResolvedChannel ℕ) → RouterState ℕ
state_of channels = record {
  channels = channels;
  health = [];
  quota_usage = ("spent", used) ∷ [];
  channel_api_keys = ("a", "k") ∷ ("b", "k") ∷ ("c", "k") ∷ [];
}

abbrev pub env : Env
env = record { now = 5; month = 24320 }

abbrev pub prices : PricingJson ℕ
prices = record {
  parse_pricing = λ s. none;
  parse_flat_fee = λ s. none;
  print_pricing = λ p. some "{}";
}

abbrev pub request : ProxyRequest (Unit {0}) Value
request = record {
  method = "POST";
  path = "/v1/chat/completions";
  headers = tt;
  body = object (field "model" (text "m") end_of_object);
}

abbrev pub context : ConnectionContext (SelectedMappingInfo ℕ) Value
context = new_context 0 1 unknown none (some openai_chat)
