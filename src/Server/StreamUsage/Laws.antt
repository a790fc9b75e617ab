-- ===== src/Server/StreamUsage/Laws.antt =====
-- What the merged usage of a stream holds.
use agent_proxy_rust.Common.{
  String, Option, none, some, Bool, not, ◌&&◌, List, [], ◌∷◌, ◌++◌, ◌≡◌, refl, ap, if◌then◌else◌,
  str_eq, is_some, and_then, or_else, Table, strip_prefix,
}
use agent_proxy_rust.Core.Http.{Json}
use agent_proxy_rust.Server.StreamUsage.{StreamJson, has_type, only_if, event_of_data}

append_assoc : {A : Type 0} (a b c : List A) → (a ++ b) ++ c ≡ a ++ (b ++ c)
append_assoc [] b c = refl
append_assoc (x ∷ a) b c = ap (λ r. x ∷ r) (append_assoc a b c)

module _ {V B : Type 0} (j : Json V B) (sj : StreamJson V) where
  -- The last value under a key that is a number above 0.
  abbrev pub last_number : String → Table V → Option V
  last_number key [] = none
  last_number key ((own, value) ∷ rest) =
      let later = last_number key rest in
      or_else later (if str_eq own key && sj.is_nonzero_number value then some value else none)

  abbrev pub fields_of : Option (Table V) → Table V
  fields_of none = []
  fields_of (some fields) = fields

  -- The members of a usage, where the condition holds.
  abbrev pub members : Bool → Option V → Table V
  members b usage = fields_of (and_then (only_if j sj b usage) sj.as_object)

  -- What an event reports, by the formats: Anthropic's beginning and its deltas, the end of Responses,
  -- the chunks of Chat, and a usage with neither a type nor choices.
  abbrev pub reported : V → Table V
  reported event =
      let usage = j.get "usage" event in
      let chat = is_some (j.get "choices" event) in
      members (has_type j sj "message_start" event)
        (and_then (j.get "message" event) (j.get "usage"))
      ++ members (has_type j sj "message_delta" event) usage
      ++ members (has_type j sj "response.completed" event)
          (and_then (j.get "response" event) (j.get "usage"))
      ++ members chat usage
      ++ members (not chat && not (is_some (j.get "type" event))) usage

  abbrev pub reported_by : Option V → Table V
  reported_by none = []
  reported_by (some event) = reported event

  -- What all the lines report, one after the other.
  abbrev pub all_reported : List String → Table V
  all_reported [] = []
  all_reported (line ∷ rest) =
      reported_by (event_of_data j sj (strip_prefix line "data: ")) ++ all_reported rest
