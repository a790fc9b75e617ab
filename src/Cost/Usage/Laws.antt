-- ===== src/Cost/Usage/Laws.antt =====
-- The usage of a stream is the usage of its last event that has one.
use agent_proxy_rust.Common.{
  String, Option, none, some, Bool, true, false, ◌||◌, List, [], ◌∷◌, ◌≡◌, refl, ◌∙◌, if◌then◌else◌,
  get_or, and_then, is_some, is_blank, str_eq, strip_prefix, lines, or_else, map_option,
}
use agent_proxy_rust.Core.Http.{Json}
use agent_proxy_rust.Cost.Usage.{
  Usage, no_usage, extract_anthropic_from_usage, extract_openai_chat_from_usage,
  extract_openai_responses_from_usage, is_event, update, take_event, take_line, take_lines,
  extract_usage_sse,
}

module _ {V B : Type 0} (j : Json V B) where
  -- What an event reports: a Chat chunk, or else a finished response, or else a message delta.
  abbrev pub reported : V → Option Usage
  reported event =
      or_else
        (if is_some (j.get "choices" event)
          then map_option (extract_openai_chat_from_usage j) (j.get "usage" event)
          else none)
        (or_else
          (if is_event j "response.completed" event
            then map_option (extract_openai_responses_from_usage j)
                (and_then (j.get "response" event) (j.get "usage"))
            else none)
          (if is_event j "message_delta" event
            then map_option (extract_anthropic_from_usage j) (j.get "usage" event)
            else none))

  -- The event of a line.
  abbrev pub event_of : (String → Option V) → String → Option V
  event_of parse line =
      let payload = get_or line (strip_prefix line "data: ") in
      if is_blank payload || str_eq payload "[DONE]" then none else parse payload

  -- What the last line that reports a usage reports.
  abbrev pub last_reported : (String → Option V) → List String → Option Usage
  last_reported parse [] = none
  last_reported parse (line ∷ rest) =
      or_else (last_reported parse rest) (and_then (event_of parse line) reported)

  update_lem :
      (o : Option V) (read : V → Usage) (usage : Usage)
      → update j o read usage ≡ get_or usage (map_option read o)
  update_lem none read usage = refl
  update_lem (some u) read usage = refl

  get_or-or_else :
      (a b : Option Usage) (usage : Usage) → get_or usage (or_else a b) ≡ get_or (get_or usage b) a
  get_or-or_else none b usage = refl
  get_or-or_else (some u) b usage = refl

  when-lem :
      (b : Bool) (o : Option V) (read : V → Usage) (usage : Usage)
      → (if b then update j o read usage else usage)
        ≡ get_or usage (if b then map_option read o else none)
  when-lem true o read usage = update_lem o read usage
  when-lem false o read usage = refl

  take_event_lem :
      (event : V) (usage : Usage) → take_event j event usage ≡ get_or usage (reported event)
  unfolding take_event
  take_event_lem event usage = simp (get_or-or_else, when-lem)

  payload_lem :
      (skipped : Bool) (o : Option V) (usage : Usage)
      → (if skipped then usage else elim o [ none ↦ usage | some event ↦ take_event j event usage ])
        ≡ get_or usage (and_then (if skipped then none else o) reported)
  payload_lem true o usage = refl
  payload_lem false none usage = refl
  payload_lem false (some event) usage = take_event_lem event usage

  take_line_lem :
      (parse : String → Option V) (line : String) (usage : Usage)
      → take_line j parse line usage ≡ get_or usage (and_then (event_of parse line) reported)
  unfolding take_line
  take_line_lem parse line usage = payload_lem _ _ usage

  take_lines_lem :
      (parse : String → Option V) (ls : List String) (usage : Usage)
      → take_lines j parse ls usage ≡ get_or usage (last_reported parse ls)
  unfolding take_lines
  take_lines_lem parse [] usage = refl
  take_lines_lem parse (line ∷ rest) usage =
      take_lines_lem parse rest (take_line j parse line usage) ∙ rw (take_line_lem, get_or-or_else)

  -- `extract_usage_sse` takes the last event that reports a usage and does not merge the events: its
  -- answer is what that event reports, and no usage where none does.
  pub extract_usage_sse_lem :
      (parse : String → Option V) (body : String)
      → extract_usage_sse j parse body ≡ get_or no_usage (last_reported parse (lines body))
  unfolding extract_usage_sse
  extract_usage_sse_lem parse body = take_lines_lem parse (lines body) no_usage
