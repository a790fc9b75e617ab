-- ===== src/Core/Report/Kinds.antt =====
-- The savings of a report by the kind of their operation.
use agent_proxy_rust.Common.{
  ℕ, ◌+◌, ◌≡◌, refl, String, Option, none, some, Bool, true, false, List, [], ◌∷◌, ◌⊎◌, inl, inr,
  arith, u64, get_or, lookup, leb, length, is_empty, Table, Bool-cases,
}
use agent_proxy_rust.Core.Report.{
  ProxyReport, TokenlessAccumulator, Reading, nothing_read, visit_report, save_report, name_report,
  Outside, parse_line, read_lines, finish, consume_content, consume_file, consume_report, lines,
  from_cursor, safe_session,
}

-- The three operations that are accumulated each for itself.
abbrev pub IsHook : String → Type 0
IsHook op = (op ≡ "rewrite-command") ⊎ (op ≡ "compress-response") ⊎ (op ≡ "compress-schema")

-- Every line that parses is a report of one of them.
abbrev pub HasHooks : Outside → Type 0
HasHooks out = (line : List ℕ) (r : ProxyReport) → out.parse line ≡ some r → IsHook r.op_type

-- The total is the sum of the three, modulo 2^64.
abbrev pub IsTotal : TokenlessAccumulator → Type 0
IsTotal acc = u64 (acc.rtk_saved + acc.response_saved + acc.schema_saved) ≡ acc.total_saved

save_report-IsTotal :
    (r : ProxyReport) (acc : TokenlessAccumulator)
    → IsHook r.op_type
    → IsTotal acc
    → IsTotal (save_report r acc)
unfolding save_report
save_report-IsTotal r acc (inl e) h = rw e (omega arith)
save_report-IsTotal r acc (inr (inl e)) h = rw e (omega arith)
save_report-IsTotal r acc (inr (inr e)) h = rw e (omega arith)

module _ (out : Outside) (hooks : HasHooks out) where
  visit_report-IsTotal :
      (is_new : Bool) (o : Option ProxyReport) (st : Reading)
      → ((r : ProxyReport) → o ≡ some r → IsHook r.op_type)
      → IsTotal st.acc
      → IsTotal (visit_report is_new o st).acc
  unfolding visit_report name_report
  visit_report-IsTotal is_new none st k h = h
  visit_report-IsTotal true (some r) st k h =
      save_report-IsTotal r (name_report r st.acc) (k r refl) h
  visit_report-IsTotal false (some r) st k h = h

  line_hooks : (line : List ℕ) (r : ProxyReport) → parse_line out line ≡ some r → IsHook r.op_type
  line_hooks line r h = elim (Bool-cases (is_empty (out.trim line))) [
    | inl blank ↦ ground (arith, blank)
    | inr full ↦ hooks (out.trim line) r (ground (arith, full))
  ]

  read_lines-IsTotal :
      (start at : ℕ) (ls : List (List ℕ)) (st : Reading)
      → IsTotal st.acc
      → IsTotal (read_lines out start at ls st).acc
  unfolding read_lines
  read_lines-IsTotal start at [] st h = h
  read_lines-IsTotal start at (l ∷ ls) st h =
      read_lines-IsTotal start (at + length l + 1) ls
        (visit_report (leb start at) (parse_line out l) st)
        (visit_report-IsTotal (leb start at) (parse_line out l) st (line_hooks l) h)

  finish-IsTotal :
      (st : Reading) {acc : TokenlessAccumulator}
      → IsTotal st.acc
      → finish out st ≡ some acc
      → IsTotal acc
  finish-IsTotal st h e = ground (arith, h, e)

  consume_content-IsTotal :
      (cursor : ℕ) (content : List ℕ) {acc : TokenlessAccumulator}
      → (consume_content out cursor content).1 ≡ some acc
      → IsTotal acc
  unfolding consume_content
  consume_content-IsTotal cursor content e =
      let start = from_cursor out cursor content in
      finish-IsTotal (read_lines out start 0 (lines content) nothing_read)
        (read_lines-IsTotal start 0 (lines content) nothing_read refl) e

  consume_file-IsTotal :
      (sid : String) (file : Option (List ℕ)) (cursors : Table ℕ) {acc : TokenlessAccumulator}
      → (consume_file out sid file cursors).1 ≡ some acc
      → IsTotal acc
  consume_file-IsTotal sid none cursors e = cc
  consume_file-IsTotal sid (some content) cursors {acc} e =
      ground (arith, e, consume_content-IsTotal (get_or 0 (lookup sid cursors)) content {acc = acc})

  pub consume_report-IsTotal :
      (read : String → Option (List ℕ)) (session : String) (cursors : Table ℕ)
      {acc : TokenlessAccumulator}
      → (consume_report out read session cursors).1 ≡ some acc
      → IsTotal acc
  unfolding consume_report
  consume_report-IsTotal read session cursors {acc} e =
      let sid = safe_session session in
      ground (arith, e, consume_file-IsTotal sid (read sid) cursors {acc = acc})
