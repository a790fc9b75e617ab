-- ===== src/Cost/Usage.antt =====
-- Usage extraction of crates/cost/src/lib.rs.
pub mod Laws
use agent_proxy_rust.Common.{
  ℕ, ◌+◌, ◌/◌, String, Option, none, some, Bool, true, false, ◌||◌, ◌&&◌, List, [], ◌∷◌,
  if◌then◌else◌, ltb, get_or, and_then, is_some, str_eq, is_blank, strip_prefix, lines,
}
use agent_proxy_rust.Core.Http.{Json}
use agent_proxy_rust.Core.Types.{
  ApiFormat, anthropic_messages, openai_chat, openai_responses, future,
}

pub record Usage : Type 0 where
  pub input_tokens : ℕ
  pub output_tokens : ℕ
  pub cache_write_tokens : ℕ
  pub cache_read_tokens : ℕ
  pub thinking_tokens : ℕ

-- `Usage::default()`.
abbrev pub no_usage : Usage
no_usage = record {
  input_tokens = 0;
  output_tokens = 0;
  cache_write_tokens = 0;
  cache_read_tokens = 0;
  thinking_tokens = 0;
}

-- A `let … else` on the `usage` field, with what follows.
abbrev pub of_usage : {V : Type 0} → Option V → (V → Usage) → Usage
of_usage none read = no_usage
of_usage (some u) read = read u

module _ {V B : Type 0} (j : Json V B) where
  -- An integer field, 0 where it is missing or no `u64`.
  abbrev pub count : String → V → ℕ
  count key u = get_or 0 (and_then (j.get key u) j.as_u64)

  -- `cached_tokens` of the details under the key.
  abbrev pub cached : String → V → ℕ
  cached key u = get_or 0 (and_then (and_then (j.get key u) (j.get "cached_tokens")) j.as_u64)

  -- Input and output tokens, with nothing cached.
  abbrev pub plain_usage : ℕ → ℕ → Usage
  plain_usage input output = record no_usage { input_tokens = input; output_tokens = output }

  unfoldable pub extract_anthropic : V → Usage
  extract_anthropic body = of_usage (j.get "usage" body) λ u.
      record (plain_usage (count "input_tokens" u) (count "output_tokens" u)) {
        cache_write_tokens = count "cache_creation_input_tokens" u;
        cache_read_tokens = count "cache_read_input_tokens" u;
      }

  -- Input and output of a Chat response, by the fields that it has.
  unfoldable pub chat_tokens : V → ℕ × ℕ
  chat_tokens u =
      let prompt_tokens = count "prompt_tokens" u in
      let completion_tokens = count "completion_tokens" u in
      if ltb 0 prompt_tokens || ltb 0 completion_tokens
      then (prompt_tokens, completion_tokens)
      else elim (and_then (j.get "total_tokens" u) j.as_u64) [
        | some total ↦ (total / 2, total / 2)
        | none ↦ (count "input" u, count "output" u)
      ]

  unfoldable pub extract_openai_chat : V → Usage
  extract_openai_chat body = of_usage (j.get "usage" body) λ u.
      let (input, output) = chat_tokens u in
      record (plain_usage input output) { cache_read_tokens = cached "prompt_tokens_details" u }

  unfoldable pub extract_openai_responses : V → Usage
  extract_openai_responses body = of_usage (j.get "usage" body) λ u.
      record (plain_usage (count "input_tokens" u) (count "output_tokens" u)) {
        cache_read_tokens = cached "input_tokens_details" u;
      }

  unfoldable pub auto_detect_usage : V → Usage
  auto_detect_usage body = of_usage (j.get "usage" body) λ u.
      if is_some (j.get "prompt_tokens" u)
      then extract_openai_chat body
      else if is_some (j.get "input_tokens_details" u)
      then extract_openai_responses body
      else if is_some (j.get "input_tokens" u)
      then extract_anthropic body
      else no_usage

  unfoldable pub extract_usage : V → Option ApiFormat → Usage
  extract_usage body (some anthropic_messages) = extract_anthropic body
  extract_usage body (some openai_chat) = extract_openai_chat body
  extract_usage body (some openai_responses) = extract_openai_responses body
  extract_usage body (some (future n)) = auto_detect_usage body
  extract_usage body none = auto_detect_usage body

  abbrev pub extract_anthropic_from_usage : V → Usage
  extract_anthropic_from_usage u =
      record (plain_usage (count "input_tokens" u) (count "output_tokens" u)) {
        cache_write_tokens = count "cache_creation_input_tokens" u;
        cache_read_tokens = count "cache_read_input_tokens" u;
      }

  abbrev pub extract_openai_chat_from_usage : V → Usage
  extract_openai_chat_from_usage u =
      plain_usage (count "prompt_tokens" u) (count "completion_tokens" u)

  abbrev pub extract_openai_responses_from_usage : V → Usage
  extract_openai_responses_from_usage u =
      plain_usage (count "input_tokens" u) (count "output_tokens" u)

  -- The `type` of an event is the given one.
  abbrev pub is_event : String → V → Bool
  is_event name event = elim (and_then (j.get "type" event) j.as_str) [
    | none ↦ false
    | some t ↦ str_eq t name
  ]

  -- The usage of an event where it has one, and else the usage so far.
  abbrev pub update : Option V → (V → Usage) → Usage → Usage
  update none read usage = usage
  update (some u) read usage = read u

  -- The three tests of an event, in their order: a later one wins.
  unfoldable pub take_event : V → Usage → Usage
  take_event event usage =
      let a =
        if is_event "message_delta" event
        then update (j.get "usage" event) extract_anthropic_from_usage usage
        else usage in
      let b =
        if is_event "response.completed" event
        then update (and_then (j.get "response" event) (j.get "usage"))
            extract_openai_responses_from_usage a
        else a in
      if is_some (j.get "choices" event)
      then update (j.get "usage" event) extract_openai_chat_from_usage b
      else b

  -- A line of a stream, where `parse` is `serde_json::from_str`.
  unfoldable pub take_line : (String → Option V) → String → Usage → Usage
  take_line parse line usage =
      let payload = get_or line (strip_prefix line "data: ") in
      if is_blank payload || str_eq payload "[DONE]"
      then usage
      else elim (parse payload) [ none ↦ usage | some event ↦ take_event event usage ]

  unfoldable pub take_lines : (String → Option V) → List String → Usage → Usage
  take_lines parse [] usage = usage
  take_lines parse (line ∷ rest) usage = take_lines parse rest (take_line parse line usage)

  unfoldable pub extract_usage_sse : (String → Option V) → String → Usage
  extract_usage_sse parse body = take_lines parse (lines body) no_usage
