-- ===== src/Router/Protocol/Tests.antt =====
-- Instances of the laws of protocols.
use agent_proxy_rust.Common.{String, none, some, List, [], ◌∷◌, ◌≡◌, refl}
use agent_proxy_rust.Core.Error.{ok}
use agent_proxy_rust.Core.Types.{openai_chat, openai_responses}
use agent_proxy_rust.Router.Protocol.{
  ProtocolEntry, parse_protocol, resolve_target_protocol, resolve_upstream_url, compatible_protocol,
}

abbrev entry : String → ProtocolEntry
entry name = record { protocol = name; base_url = "https://up"; rewrite_path = none }

abbrev protocols : List ProtocolEntry
protocols = entry "openai_responses" ∷ entry "openai_chat" ∷ []

resolved : resolve_target_protocol none (some openai_chat) protocols ≡ ok openai_chat
unfolding resolve_target_protocol
resolved = refl

found : resolve_upstream_url openai_chat protocols ≡ ok ("https://up", none)
unfolding resolve_upstream_url
found = refl

switched : compatible_protocol "" ("openai_chat" ∷ []) protocols openai_responses ≡ ok openai_chat
unfolding compatible_protocol parse_protocol
switched = refl
