-- ===== src/Core/Report/Tests.antt =====
-- Runs of the consumption of reports: in the sample a line is a report of as many saved tokens as its
-- first byte.
use agent_proxy_rust.Common.{
  ℕ, lookup, if◌then◌else◌, ◌==◌, Option, none, some, List, [], ◌∷◌, ◌≡◌, refl, arith,
}
use agent_proxy_rust.Core.Report.{
  ProxyReport, Outside, consume_content, safe_session, lines, read_lines, visit_report, save_report,
  name_report,
}
use agent_proxy_rust.Core.Report.Laws.{consumed, counted, saved_all, consume_report_once}

abbrev report_of : ℕ → ProxyReport
report_of n = record {
  project_path = none;
  user_name = none;
  op_type = "compress-schema";
  method = none;
  before_tokens = n;
  after_tokens = 0;
  saved_tokens = n;
  before_bytes = 0;
  after_bytes = 0;
  saved_bytes = 0;
}

abbrev parse_first : List ℕ → Option ProxyReport
parse_first [] = none
parse_first (c ∷ cs) = some (report_of c)

-- A line that is written in part does not parse.
abbrev parse_closed : List ℕ → Option ProxyReport
parse_closed (c ∷ d ∷ cs) = if d == 125 then some (report_of c) else none
parse_closed _ = none

abbrev hooks : Outside
hooks = record { trim = λ l. l; parse = parse_first; print = λ rs. "[]" }

abbrev growing : List (List (List ℕ))
growing = ((3 ∷ []) ∷ (5 ∷ 1 ∷ []) ∷ []) ∷ ([] ∷ []) ∷ ((7 ∷ []) ∷ []) ∷ []

consume_report_once_example : consumed hooks "s-1" [] [] growing ≡ saved_all hooks growing
unfolding safe_session lookup
consume_report_once_example =
    consume_report_once hooks "s-1" [] growing refl refl (ground arith) (omega arith)

abbrev closing : Outside
closing = record { trim = λ l. l; parse = parse_closed; print = λ rs. "[]" }

-- A read while a hook is half-way through a line moves the cursor behind that line's beginning, and
-- its savings are not counted when it is complete.
torn_read : (consume_content closing 0 (3 ∷ 125 ∷ 10 ∷ 5 ∷ [])).0 ≡ 4
unfolding consume_content read_lines lines visit_report save_report name_report
torn_read = refl

torn_line : counted hooks (consume_content closing 4 (3 ∷ 125 ∷ 10 ∷ 5 ∷ 125 ∷ 10 ∷ [])).1 ≡ 0
unfolding consume_content read_lines lines visit_report save_report name_report
torn_line = refl
