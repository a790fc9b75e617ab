-- ===== src/Core/Types.antt =====
-- crates/core/src/types.rs: formats, agents, requests, responses and the connection context. The
-- extension map holds boxed values of any type; `Ext` lists the types that the crates store, and
-- `get::<T>` is a lookup and a test of the constructor.
use agent_proxy_rust.Common.{
  ℕ, String, Option, none, some, Bool, true, false, ◌&&◌, ◌||◌, List, [], if◌then◌else◌, str_eq,
  ◌==◌, codes, lower, code_eq, is_infix, ends_with, contains, Table, lookup, insert, and_then,
}
use agent_proxy_rust.Core.Http.{HeaderMap, Json}

-- `llm_bridge_core::model::ApiFormat`, with the three formats that the code names. The type is
-- open to more, for which every match has a last case.
pub data ApiFormat : Type 0 where
  anthropic_messages openai_chat openai_responses : ApiFormat
  future : ℕ → ApiFormat

abbrev pub format_eq : ApiFormat → ApiFormat → Bool
format_eq anthropic_messages anthropic_messages = true
format_eq openai_chat openai_chat = true
format_eq openai_responses openai_responses = true
format_eq (future a) (future b) = a == b
format_eq _ _ = false

unfoldable pub detect_api_format : String → Option ApiFormat
detect_api_format path =
    if ends_with path "/v1/messages" || str_eq path "/v1/messages"
    then some anthropic_messages
    else if ends_with path "/v1/chat/completions" || str_eq path "/v1/chat/completions"
    then some openai_chat
    else if ends_with path "/v1/responses" || str_eq path "/v1/responses"
    then some openai_responses
    else none

pub data AgentType : Type 0 where
  claude codex gemini opencode openclaw hermes unknown : AgentType

-- `Display`.
abbrev pub agent_name : AgentType → String
agent_name claude = "claude-code"
agent_name codex = "codex"
agent_name gemini = "gemini"
agent_name opencode = "opencode"
agent_name openclaw = "openclaw"
agent_name hermes = "hermes"
agent_name unknown = "unknown"

-- The `match` on the lower-cased `x-agent-type` header.
unfoldable pub agent_of_header : List ℕ → AgentType
agent_of_header h =
    if code_eq h (codes "claude") || code_eq h (codes "claude-code")
    then claude
    else if code_eq h (codes "codex")
    then codex
    else if code_eq h (codes "gemini") || code_eq h (codes "gemini-cli")
    then gemini
    else if code_eq h (codes "opencode")
    then opencode
    else if code_eq h (codes "openclaw")
    then openclaw
    else if code_eq h (codes "hermes")
    then hermes
    else unknown

-- The patterns sought in the lower-cased `user-agent` header.
unfoldable pub agent_of_user_agent : List ℕ → Option AgentType
agent_of_user_agent ua =
    if is_infix ua (codes "claude-code") || is_infix ua (codes "claude")
    then some claude
    else if is_infix ua (codes "codex")
    then some codex
    else if is_infix ua (codes "gemini-cli") || is_infix ua (codes "gemini")
    then some gemini
    else if is_infix ua (codes "opencode")
    then some opencode
    else if is_infix ua (codes "openclaw")
    then some openclaw
    else if is_infix ua (codes "hermes")
    then some hermes
    else none

module _ {H : Type 0} (hm : HeaderMap H) where
  -- The heuristic on the path.
  unfoldable pub agent_of_path : H → String → AgentType
  agent_of_path headers path =
      if contains path "/v1/messages" && hm.contains_key "anthropic-beta" headers
      then claude
      else if contains path "/v1/responses" && hm.contains_key "openai-organization" headers
      then codex
      else if contains path "/v1/chat/completions" && hm.contains_key "x-goog-api-key" headers
      then gemini
      else unknown

  unfoldable pub detect_agent_type : H → String → AgentType
  detect_agent_type headers path = elim (hm.get "x-agent-type" headers) [
    | some agent ↦ agent_of_header (lower (codes agent))
    | none ↦
        elim (and_then (hm.get "user-agent" headers) λ ua. agent_of_user_agent (lower (codes ua))) [
          | some agent ↦ agent
          | none ↦ agent_of_path headers path
        ]
  ]

pub record ProxyRequest (H B : Type 0) : Type 0 where
  pub method : String
  pub path : String
  pub headers : H
  pub body : B

pub record ProxyResponse (H B : Type 0) : Type 0 where
  pub status : ℕ
  pub headers : H
  pub body : B
  pub is_streaming : Bool

-- `ProxyRequest::is_streaming`.
unfoldable pub wants_stream : {V H B : Type 0} → Json V B → ProxyRequest H B → Bool
wants_stream j req =
    elim (and_then (j.from_slice req.body) λ v. and_then (j.get "stream" v) j.as_bool) [
      | none ↦ false
      | some b ↦ b
    ]

pub record ChannelConfig : Type 0 where
  pub url : String
  pub api_key : String
  pub protocol : ApiFormat
  pub name : String
  pub rewrite_path : Option String

-- crates/core/src/compression.rs
pub record CompressionStats : Type 0 where
  pub tokenless_pre : ℕ
  pub tokenless_post : ℕ
  pub tokenless_experimental : ℕ
  pub proxy_req_pre : ℕ
  pub proxy_req_post : ℕ
  pub proxy_res_pre : ℕ
  pub proxy_res_post : ℕ
  pub rtk_saved : ℕ

-- What the crates store in the extension map: `M` is the mapping info of the model router, and
-- `V` a JSON value.
pub data Ext (M V : Type 0) : Type 0 where
  channel : ChannelConfig → Ext M V
  mapping : M → Ext M V
  stats : CompressionStats → Ext M V
  flag : Bool → Ext M V
  number : ℕ → Ext M V
  json : V → Ext M V

pub record ConnectionContext (M V : Type 0) : Type 0 where
  pub request_id : ℕ
  pub agent_type : AgentType
  pub agent_role : Option String
  pub detected_format : Option ApiFormat
  pub started_at : ℕ
  pub target_protocol : Option ApiFormat
  pub extensions : Table (Ext M V)
  pub session_id : Option String
  pub project_path : Option String
  pub user_name : Option String
  pub tokenless_saved_tokens : ℕ
  pub tokenless_rtk_saved : ℕ
  pub tokenless_response_saved : ℕ
  pub tokenless_schema_saved : ℕ
  pub tokenless_breakdown_json : Option String

abbrev pub ext_stats_record : String
ext_stats_record = "stats_record"

abbrev pub ext_selected_channel : String
ext_selected_channel = "selected_channel"

abbrev pub ext_selected_mapping : String
ext_selected_mapping = "selected_mapping"

abbrev pub ext_bridge_reverse : String
ext_bridge_reverse = "bridge_reverse"

abbrev pub ext_compression_stats : String
ext_compression_stats = "compression_stats"

module _ {M V : Type 0} where
  abbrev pub as_channel : Ext M V → Option ChannelConfig
  as_channel (channel c) = some c
  as_channel _ = none

  abbrev pub as_mapping : Ext M V → Option M
  as_mapping (mapping m) = some m
  as_mapping _ = none

  abbrev pub as_stats : Ext M V → Option CompressionStats
  as_stats (stats s) = some s
  as_stats _ = none

  abbrev pub as_flag : Ext M V → Option Bool
  as_flag (flag b) = some b
  as_flag _ = none

  abbrev pub as_number : Ext M V → Option ℕ
  as_number (number n) = some n
  as_number _ = none

  -- `ConnectionContext::new`, at the instant `now`.
  abbrev pub new_context :
      ℕ → ℕ → AgentType → Option String → Option ApiFormat → ConnectionContext M V
  new_context now request_id agent_type agent_role detected_format = record {
    request_id = request_id;
    agent_type = agent_type;
    agent_role = agent_role;
    detected_format = detected_format;
    started_at = now;
    target_protocol = none;
    extensions = [];
    session_id = none;
    project_path = none;
    user_name = none;
    tokenless_saved_tokens = 0;
    tokenless_rtk_saved = 0;
    tokenless_response_saved = 0;
    tokenless_schema_saved = 0;
    tokenless_breakdown_json = none;
  }

  -- `ctx.insert`.
  abbrev pub put : String → Ext M V → ConnectionContext M V → ConnectionContext M V
  put key value ctx = record ctx { extensions = insert key value ctx.extensions }

  -- `ctx.get::<T>`, with the test of the type.
  abbrev pub read : {T : Type 0} → (Ext M V → Option T) → String → ConnectionContext M V → Option T
  read as_type key ctx = and_then (lookup key ctx.extensions) as_type

  -- The name under which the middlewares know the selected channel, or the empty text.
  abbrev pub selected_name : ConnectionContext M V → String
  selected_name ctx = elim (read as_channel ext_selected_channel ctx) [
    | none ↦ ""
    | some ch ↦ ch.name
  ]
