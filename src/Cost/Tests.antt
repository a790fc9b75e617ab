-- ===== src/Cost/Tests.antt =====
-- Instances of the laws of costs, with whole numbers for `f64`.
use native.Mathlib.Nat.{mul-le-mul_right}
use agent_proxy_rust.Common.{
  ℕ, ◌*◌, ◌/◌, ◌≤◌, String, Option, none, some, true, false, ◌≡◌, refl, arith, leb, List, [], ◌∷◌,
  if◌then◌else◌, str_eq, lookup, insert, leb→le,
}
use agent_proxy_rust.Core.Types.{
  ConnectionContext, stats, put, read, as_stats, ext_compression_stats, CompressionStats,
  openai_chat,
}
use agent_proxy_rust.Core.Stats.{no_stats}
use agent_proxy_rust.Router.Billing.{TokenPrices, token, PricingTier}
use agent_proxy_rust.Router.Handler.{SelectedMappingInfo}
use agent_proxy_rust.Router.Samples.{context}
use agent_proxy_rust.Samples.{
  whole, value_json, Value, object, field, text, whole_number, end_of_object,
}
use agent_proxy_rust.Cost.Usage.{
  Usage, no_usage, extract_usage, extract_usage_sse, extract_openai_chat, take_lines, take_line,
  take_event, chat_tokens,
}
use agent_proxy_rust.Cost.Price.Laws.{IsMoney}
use agent_proxy_rust.Core.Report.{ProxyReport, TokenlessAccumulator, Outside, lines as report_lines}
use agent_proxy_rust.Core.Http.{HeaderMap}

abbrev delta : ℕ → Value
delta n = object (
    field "type" (text "message_delta")
      (field "usage" (object (field "output_tokens" (whole_number n) end_of_object)) end_of_object))

-- Two events, by one letter each.
abbrev parse : String → Option Value
parse s = if str_eq s "a" then some (delta 3) else if str_eq s "b" then some (delta 8) else none

last_wins :
    extract_usage_sse value_json parse "data: a\n\ndata: b\ndata: [DONE]\n"
    ≡ record no_usage { output_tokens = 8 }
unfolding extract_usage_sse take_lines take_line take_event
last_wins = refl

abbrev prices : ℕ → TokenPrices ℕ
prices n = record {
  input_per_mtok = n;
  output_per_mtok = 2 * n;
  cache_write_per_mtok = none;
  cache_read_per_mtok = none;
  thinking_per_mtok = none;
}

abbrev tier : Option ℕ → ℕ → PricingTier ℕ
tier bound n = record { up_to = bound; price = token (prices n) }

abbrev usage : ℕ → Usage
usage n = record no_usage { input_tokens = n; output_tokens = 1_000_000 }

leb_of_le : (a b : ℕ) → a ≤ b → leb a b ≡ true
leb_of_le a b h = ground arith

whole-IsMoney : IsMoney whole (λ n. Unit {0}) (λ n. Unit {0})
whole-IsMoney = record {
  charge_cost = λ n p h. tt;
  add_cost = λ x y h k. tt;
  of_nat_mono = λ a b h. ground arith;
  div_mono = λ x y h. ground arith;
  mul_mono =
      λ a b p h k. leb_of_le _ _ (mul-le-mul_right p (leb→le (a / 1_000_000) (b / 1_000_000) k));
  add_mono = λ a b c d h i k l m n. ground arith;
}

abbrev layers : CompressionStats
layers = record no_stats { tokenless_pre = 50; tokenless_post = 20; rtk_saved = 4 }

abbrev measured : ConnectionContext (SelectedMappingInfo ℕ) Value
measured = record (put ext_compression_stats (stats layers) context) {
  tokenless_saved_tokens = 9;
  tokenless_schema_saved = 9;
}

abbrev answer : Value
answer = object (
    field "usage"
      (object (
        field "prompt_tokens" (whole_number 10)
          (field "completion_tokens" (whole_number 5) end_of_object)))
      end_of_object)

abbrev usage_of : ℕ → ℕ → Usage
usage_of input output = record no_usage { input_tokens = input; output_tokens = output }

counted : extract_usage value_json answer (some openai_chat) ≡ usage_of 10 5
unfolding extract_usage extract_openai_chat chat_tokens
counted = refl

found : read as_stats ext_compression_stats measured ≡ some layers
unfolding lookup insert
found = refl

abbrev hook_report : ProxyReport
hook_report = record {
  project_path = none;
  user_name = none;
  op_type = "compress-schema";
  method = none;
  before_tokens = 9;
  after_tokens = 2;
  saved_tokens = 7;
  before_bytes = 0;
  after_bytes = 0;
  saved_bytes = 0;
}

-- Every line is that report.
abbrev hooks : Outside
hooks = record { trim = λ l. l; parse = λ l. some hook_report; print = λ rs. "[7]" }

abbrev one_report : TokenlessAccumulator
one_report = record {
  total_saved = 7;
  rtk_saved = 0;
  response_saved = 0;
  schema_saved = 7;
  breakdown_json = "[7]";
  project_path = none;
  user_name = none;
}

abbrev report_file : String → Option (List ℕ)
report_file sid = some (5 ∷ 10 ∷ [])

abbrev header_lines : HeaderMap (List (String × Option String))
header_lines = record { get = λ k h. none; contains_key = λ k h. false; iter = λ h. h }
