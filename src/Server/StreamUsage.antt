-- ===== src/Server/StreamUsage.antt =====
-- `extract_usage_from_sse`, `normalize_sse_format` and `merge_usage_fields` of
-- crates/core/src/server.rs: the usage that a stream reports, merged over its events. `trim_end` is that
-- of the standard library. The normalized lines are not joined and split again: that gives the same.
pub mod Laws
mod Tests
use agent_proxy_rust.Common.{
  String, Option, none, some, Bool, true, false, not, ◌||◌, ◌&&◌, List, [], ◌∷◌, map, if◌then◌else◌,
  str_eq, is_some, is_empty, is_blank, and_then, Table, lookup, insert, lines, strip_prefix,
  starts_with,
}
use agent_proxy_rust.Core.Error.{◌<>◌}
use agent_proxy_rust.Core.Http.{Json}

-- What the code takes of JSON beyond `Json`: the members of an object, whether a value is a number
-- above 0, the parser and the value for an object.
pub record StreamJson (V : Type 0) : Type 0 where
  pub parse : String → Option V
  pub as_object : V → Option (Table V)
  pub is_nonzero_number : V → Bool
  pub usage_object : Table V → V
  pub null : V

abbrev pub spaced : String → String → Option String → String
spaced prefix line none = line
spaced prefix line (some rest) = if starts_with rest " " then line else prefix <> " " <> rest

abbrev pub normalize_line : String → String
normalize_line line =
    if is_some (strip_prefix line "data:")
    then spaced "data:" line (strip_prefix line "data:")
    else spaced "event:" line (strip_prefix line "event:")

unfoldable pub normalize_sse_format : (String → String) → String → List String
normalize_sse_format trim_end text = map (λ line. normalize_line (trim_end line)) (lines text)

module _ {V B : Type 0} (j : Json V B) (sj : StreamJson V) where
  unfoldable pub merge_fields : Table V → Table V → Table V
  merge_fields acc [] = acc
  merge_fields acc ((key, value) ∷ rest) =
      merge_fields
        (if sj.is_nonzero_number value || not (is_some (lookup key acc))
          then insert key value acc
          else acc)
        rest

  abbrev pub merge_object : Table V → Option (Table V) → Table V
  merge_object acc none = acc
  merge_object acc (some fields) = merge_fields acc fields

  -- `let Some(u)`: a value that is no object changes nothing.
  abbrev pub merge_usage_fields : Table V → Option V → Table V
  merge_usage_fields acc usage = merge_object acc (and_then usage sj.as_object)

  abbrev pub has_type : String → V → Bool
  has_type name event = elim (and_then (j.get "type" event) j.as_str) [
    | none ↦ false
    | some t ↦ str_eq t name
  ]

  abbrev pub only_if : Bool → Option V → Option V
  only_if b o = if b then o else none

  -- The five tests, one after the other.
  unfoldable pub merge_event : V → Table V → Table V
  merge_event event acc =
      let usage = j.get "usage" event in
      let chat = is_some (j.get "choices" event) in
      let a = merge_usage_fields acc (
        only_if (has_type "message_start" event)
          (and_then (j.get "message" event) (j.get "usage"))) in
      let b = merge_usage_fields a (only_if (has_type "message_delta" event) usage) in
      let c = merge_usage_fields b (
        only_if (has_type "response.completed" event)
          (and_then (j.get "response" event) (j.get "usage"))) in
      let d = merge_usage_fields c (only_if chat usage) in
      merge_usage_fields d (only_if (not chat && not (is_some (j.get "type" event))) usage)

  -- The event of a line, if it has one.
  abbrev pub event_of_data : Option String → Option V
  event_of_data none = none
  event_of_data (some text) = if is_blank text || str_eq text "[DONE]" then none else sj.parse text

  abbrev pub merge_line : Option V → Table V → Table V
  merge_line none acc = acc
  merge_line (some event) acc = merge_event event acc

  unfoldable pub merge_lines : List String → Table V → Table V
  merge_lines [] acc = acc
  merge_lines (line ∷ rest) acc =
      merge_lines rest (merge_line (event_of_data (strip_prefix line "data: ")) acc)

  -- `none` is a body that is no text.
  unfoldable pub extract_usage_from_sse : (String → String) → Option String → V
  extract_usage_from_sse trim_end none = sj.null
  extract_usage_from_sse trim_end (some text) =
      let merged = merge_lines (normalize_sse_format trim_end text) [] in
      if is_empty merged then sj.null else sj.usage_object merged
