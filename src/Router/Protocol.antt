-- ===== src/Router/Protocol.antt =====
-- The protocol helpers of crates/model-router/src/lib.rs: which protocol a request is sent in, and
-- to which address.
pub mod Laws
mod Tests
use agent_proxy_rust.Common.{
  String, Option, none, some, Bool, true, false, not, ◌&&◌, List, [], ◌∷◌, if◌then◌else◌, str_eq,
  any, find, is_blank, is_empty,
}
use agent_proxy_rust.Core.Error.{Result, ok, err, internal, ◌<>◌, ◌>>=◌, ok_or}
use agent_proxy_rust.Core.Types.{
  ApiFormat, anthropic_messages, openai_chat, openai_responses, future,
}

-- `ProtocolEntry` of crates/storage/src/types.rs.
pub record ProtocolEntry : Type 0 where
  pub protocol : String
  pub base_url : String
  pub rewrite_path : Option String

abbrev pub protocol_to_str : ApiFormat → String
protocol_to_str anthropic_messages = "anthropic_messages"
protocol_to_str openai_chat = "openai_chat"
protocol_to_str openai_responses = "openai_responses"
protocol_to_str (future n) = ""

unfoldable pub parse_protocol : String → Result ApiFormat
parse_protocol s =
    if str_eq s "anthropic_messages"
    then ok anthropic_messages
    else if str_eq s "openai_chat"
    then ok openai_chat
    else if str_eq s "openai_responses"
    then ok openai_responses
    else err (internal ("unknown protocol in storage: " <> s))

-- An entry for the protocol of this name.
abbrev pub serves : String → List ProtocolEntry → Bool
serves name = any λ e. str_eq e.protocol name

-- Step 3: the first protocol.
fallback : List ProtocolEntry → Result ApiFormat
fallback [] = err (internal "channel has no protocols configured")
fallback (e ∷ es) =
    if is_blank e.protocol
    then err (internal "channel has no protocols configured")
    else parse_protocol e.protocol

-- Step 2: the protocol of the client.
passthrough : Option ApiFormat → List ProtocolEntry → Result ApiFormat
unfolding fallback
passthrough none protocols = fallback protocols
passthrough (some df) protocols =
    if not (is_blank (protocol_to_str df)) && serves (protocol_to_str df) protocols
    then ok df
    else fallback protocols

-- Step 1: the forced protocol.
unfoldable pub resolve_target_protocol :
    Option String → Option ApiFormat → List ProtocolEntry → Result ApiFormat
unfolding passthrough
resolve_target_protocol none detected protocols = passthrough detected protocols
resolve_target_protocol (some fp) detected protocols = parse_protocol fp >>= λ target.
    if serves (protocol_to_str target) protocols
    then ok target
    else err (internal ("force_protocol '" <> fp <> "' not found in channel protocols"))

unfoldable pub resolve_upstream_url :
    ApiFormat → List ProtocolEntry → Result (String × Option String)
resolve_upstream_url protocol protocols =
    let target = protocol_to_str protocol in
    ok_or (internal ("no protocol entry for '" <> target <> "' in channel protocols"))
      (find (λ e. str_eq e.protocol target) protocols)
    >>= λ entry.
        if is_blank entry.base_url
        then err (internal ("protocol entry '" <> target <> "' has empty base_url"))
        else ok (entry.base_url, entry.rewrite_path)

-- Some name of the list is the given one.
abbrev pub allows : List String → String → Bool
allows allowed name = any (λ ap. str_eq ap name) allowed

-- The compatibility check of `on_request`: a protocol that the mapping does not allow is replaced by
-- the first of the channel that it allows. The message of the refusal is left to `describe`.
unfoldable pub compatible_protocol :
    String → List String → List ProtocolEntry → ApiFormat → Result ApiFormat
compatible_protocol described allowed protocols target =
    if is_empty allowed
    then ok target
    else if allows allowed (protocol_to_str target)
    then ok target
    else elim (find (λ pe. allows allowed pe.protocol) protocols) [
      | some entry ↦ parse_protocol entry.protocol
      | none ↦ err (internal described)
    ]
