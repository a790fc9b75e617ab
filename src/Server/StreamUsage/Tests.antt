-- ===== src/Server/StreamUsage/Tests.antt =====
-- A stream of two events: the beginning counts the input, the delta the output and no input.
use agent_proxy_rust.Common.{
  String, Option, none, some, Bool, false, [], ◌∷◌, ◌≡◌, refl, Table, lookup, insert, str_eq, ltb,
  ℕ, if◌then◌else◌,
}
use agent_proxy_rust.Samples.{
  Value, Fields, value_json, object, field, text, whole_number, end_of_object,
}
use agent_proxy_rust.Server.StreamUsage.{
  StreamJson, merge_fields, merge_event, merge_lines, normalize_sse_format, extract_usage_from_sse,
}

abbrev table_of : Fields → Table Value
table_of end_of_object = []
table_of (field key value rest) = (key, value) ∷ table_of rest

abbrev members_of : Value → Option (Table Value)
members_of (object fields) = some (table_of fields)
members_of _ = none

abbrev above_0 : Value → Bool
above_0 (whole_number n) = ltb 0 n
above_0 _ = false

abbrev fields_from : Table Value → Fields
fields_from [] = end_of_object
fields_from ((key, value) ∷ rest) = field key value (fields_from rest)

abbrev counts : ℕ → ℕ → Value
counts input output = object (
    field "input_tokens" (whole_number input)
      (field "output_tokens" (whole_number output) end_of_object))

abbrev beginning : Value
beginning = object (
    field "type" (text "message_start")
      (field "message" (object (field "usage" (counts 10 0) end_of_object)) end_of_object))

abbrev ending : Value
ending = object (field "type" (text "message_delta") (field "usage" (counts 0 5) end_of_object))

abbrev parse : String → Option Value
parse s = if str_eq s "s" then some beginning else if str_eq s "d" then some ending else none

abbrev stream_json : StreamJson Value
stream_json = record {
  parse = parse;
  as_object = members_of;
  is_nonzero_number = above_0;
  usage_object = λ merged. object (field "usage" (object (fields_from merged)) end_of_object);
  null = text "null";
}

abbrev stream : String
stream = "event: message_start\ndata: s\n\ndata:d\ndata: [DONE]\n"

-- The input of the beginning stays.
merged_both :
    extract_usage_from_sse value_json stream_json (λ line. line) (some stream)
    ≡ object (field "usage" (counts 10 5) end_of_object)
unfolding extract_usage_from_sse merge_lines merge_event merge_fields normalize_sse_format lookup
    insert
merged_both = refl
