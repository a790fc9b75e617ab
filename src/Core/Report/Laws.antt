-- ===== src/Core/Report/Laws.antt =====
-- What the consumption of reports counts.
use agent_proxy_rust.Common.{
  Table, lookup, get_or, is_blank, lookup-insert_self, Bool-cases, All-append, inl, inr, subst, ℕ,
  ◌+◌, ◌<◌, ◌≤◌, String, Option, none, some, Bool, true, false, ◌||◌, List, [], ◌∷◌, ◌++◌,
  if◌then◌else◌, ◌==◌, length, is_some, is_empty, ◌≡◌, refl, sym, ap, ◌∙◌, arith, All,
}
use agent_proxy_rust.Core.Report.{
  ProxyReport, TokenlessAccumulator, Reading, nothing_read, visit_report, save_report, name_report,
  lines, newline, Outside, parse_line, read_lines, finish, from_cursor, consume_content,
  consume_file, consume_report, safe_session,
}

-- A file of complete lines.
abbrev pub written : List (List ℕ) → List ℕ
written [] = []
written (l ∷ ls) = l ++ (newline ∷ written ls)

abbrev pub size : List (List ℕ) → ℕ
size [] = 0
size (l ∷ ls) = length l + 1 + size ls

abbrev pub IsLine : List ℕ → Type 0
IsLine = All (λ c. (c == newline) ≡ false)

lines_line : (l rest : List ℕ) → IsLine l → lines (l ++ (newline ∷ rest)) ≡ l ∷ lines rest
unfolding lines
lines_line [] rest h = refl
lines_line (c ∷ l) rest h = ground (arith, lines_line l rest h.1)

pub lines-written : (ls : List (List ℕ)) → All IsLine ls → lines (written ls) ≡ ls
unfolding lines
lines-written [] h = refl
lines-written (l ∷ ls) h = lines_line l (written ls) h.0 ∙ ap (λ r. l ∷ r) (lines-written ls h.1)

length_line : (l rest : List ℕ) → length (l ++ (newline ∷ rest)) ≡ length l + 1 + length rest
length_line [] rest = ground arith
length_line (c ∷ l) rest = ground (arith, length_line l rest)

pub length-written : (ls : List (List ℕ)) → length (written ls) ≡ size ls
length-written [] = refl
length-written (l ∷ ls) = ground (arith, length_line l (written ls), length-written ls)

pub size-append : (a b : List (List ℕ)) → size (a ++ b) ≡ size a + size b
size-append [] b = ground arith
size-append (l ∷ a) b = ground (arith, size-append a b)

module _ (out : Outside) where
  abbrev pub visit_all : Bool → List (List ℕ) → Reading → Reading
  visit_all is_new [] st = st
  visit_all is_new (l ∷ ls) st = visit_all is_new ls (visit_report is_new (parse_line out l) st)

  read_new :
      (start at : ℕ) (ls : List (List ℕ)) (st : Reading)
      → start ≤ at
      → read_lines out start at ls st ≡ visit_all true ls st
  unfolding read_lines
  read_new start at [] st h = refl
  read_new start at (l ∷ ls) st h = ground (
    arith,
    read_new start (at + length l + 1) ls (visit_report true (parse_line out l) st) (omega arith),
  )

  read_split :
      (start at : ℕ) (old new : List (List ℕ)) (st : Reading)
      → at + size old ≡ start
      → read_lines out start at (old ++ new) st ≡ visit_all true new (visit_all false old st)
  unfolding read_lines
  read_split start at [] new st h = read_new start at new st (omega arith)
  read_split start at (l ∷ old) new st h = ground (
    arith,
    read_split start (at + length l + 1) old new (visit_report false (parse_line out l) st)
        (omega arith),
  )

  -- The tokens that the reports of some lines saved, and whether there are any.
  abbrev pub saved_by : Option ProxyReport → ℕ
  saved_by none = 0
  saved_by (some r) = r.saved_tokens

  abbrev pub saved : List (List ℕ) → ℕ
  saved [] = 0
  saved (l ∷ ls) = saved_by (parse_line out l) + saved ls

  abbrev pub reports : List (List ℕ) → Bool
  reports [] = false
  reports (l ∷ ls) = is_some (parse_line out l) || reports ls

  old_counts_none :
      (ls : List (List ℕ)) (st : Reading)
      → ((visit_all false ls st).acc.total_saved ≡ st.acc.total_saved)
        × ((visit_all false ls st).has_new_lines ≡ st.has_new_lines)
  unfolding visit_report name_report
  old_counts_none [] st = (refl, refl)
  old_counts_none (l ∷ ls) st =
      ground (arith, old_counts_none ls (visit_report false (parse_line out l) st))

  new_counts :
      (ls : List (List ℕ)) (st : Reading)
      → st.acc.total_saved + saved ls < 18446744073709551616
      → ((visit_all true ls st).acc.total_saved ≡ st.acc.total_saved + saved ls)
        × ((visit_all true ls st).has_new_lines ≡ st.has_new_lines || reports ls)
  unfolding visit_report name_report save_report
  new_counts [] st h = ground arith
  new_counts (l ∷ ls) st h =
      ground (arith, h, new_counts ls (visit_report true (parse_line out l) st))

  saved-append : (a b : List (List ℕ)) → saved (a ++ b) ≡ saved a + saved b
  saved-append [] b = ground arith
  saved-append (l ∷ a) b = ground (arith, saved-append a b)

  reports-append : (a b : List (List ℕ)) → reports (a ++ b) ≡ reports a || reports b
  reports-append [] b = refl
  reports-append (l ∷ a) b = ground (arith, reports-append a b)

  saved_none : (a : List (List ℕ)) → reports a ≡ false → saved a ≡ 0
  saved_none [] h = refl
  saved_none (l ∷ a) h = ground (arith, h, saved_none a)

  abbrev pub counted : Option TokenlessAccumulator → ℕ
  counted none = 0
  counted (some acc) = acc.total_saved

  counted_finish :
      (st : Reading)
      → (st.has_new_lines ≡ false → st.acc.total_saved ≡ 0)
      → counted (finish out st) ≡ st.acc.total_saved
  counted_finish st h = ground (arith, h)

  abbrev pub reading : List (List ℕ) → List (List ℕ) → Reading
  reading old new = visit_all true new (visit_all false old nothing_read)

  reading_counts :
      (old new : List (List ℕ))
      → saved new < 18446744073709551616
      → ((reading old new).acc.total_saved ≡ saved new)
        × ((reading old new).has_new_lines ≡ reports new)
  reading_counts old new h =
      let o = old_counts_none old nothing_read in
      let n = new_counts new (visit_all false old nothing_read) (ground (arith, h, o.0)) in
      (ground (arith, o.0, n.0), ground (arith, o.1, n.1))

  consume_step :
      (old new : List (List ℕ))
      → All IsLine (old ++ new)
      → consume_content out (size old) (written (old ++ new)) ≡ (
        if (reading old new).has_new_lines then size (old ++ new) else size old,
        finish out (reading old new),
      )
  unfolding consume_content
  consume_step old new h =
      let start : from_cursor out (size old) (written (old ++ new)) ≡ size old =
        ground (arith, length-written (old ++ new), size-append old new) in
      ground (
        arith,
        start,
        lines-written (old ++ new) h,
        length-written (old ++ new),
        read_split (size old) 0 old new nothing_read (omega arith),
      )

  abbrev pub saved_all : List (List (List ℕ)) → ℕ
  saved_all [] = 0
  saved_all (new ∷ news) = saved new + saved_all news

  append_assoc : (a b c : List (List ℕ)) → (a ++ b) ++ c ≡ a ++ (b ++ c)
  append_assoc [] b c = refl
  append_assoc (l ∷ a) b c = ap (λ r. l ∷ r) (append_assoc a b c)

  append_nil : (a : List (List ℕ)) → a ++ [] ≡ a
  append_nil [] = refl
  append_nil (l ∷ a) = ap (λ r. l ∷ r) (append_nil a)

  unread_counts :
      (a b new : List (List ℕ))
      → reports b ≡ false
      → (saved (b ++ new) ≡ saved new) × (reports (b ++ new) ≡ reports new)
  unread_counts a b new none_in =
      ground (arith, saved-append b new, saved_none b none_in, reports-append b new)

  consume_more :
      (a b new : List (List ℕ))
      → All IsLine (a ++ (b ++ new))
      → reports b ≡ false
      → saved new < 18446744073709551616
      → ((consume_content out (size a) (written (a ++ (b ++ new)))).0
          ≡ (if reports new then size (a ++ (b ++ new)) else size a))
        × (counted (consume_content out (size a) (written (a ++ (b ++ new)))).1 ≡ saved new)
  consume_more a b new h none_in small =
      let u = unread_counts a b new none_in in
      let r = reading_counts a (b ++ new) (ground (arith, u.0, small)) in
      let s = consume_step a (b ++ new) h in
      (
        ap (λ p. p.0) s ∙ ground (arith, r.1, u.1),
        ap (λ p. counted p.1) s
            ∙ counted_finish (reading a (b ++ new))
                (λ e. ground (arith, e, r.0, r.1, saved_none new, u.0, u.1))
            ∙ r.0
            ∙ u.0,
      )

  written_nonempty : (l : List ℕ) (ls : List (List ℕ)) → is_empty (written (l ∷ ls)) ≡ false
  written_nonempty [] ls = refl
  written_nonempty (c ∷ l) ls = refl

  -- The calls for a session, where the file grows by some lines before each of them: what they count.
  abbrev pub consumed : String → Table ℕ → List (List ℕ) → List (List (List ℕ)) → ℕ
  consumed session cursors old [] = 0
  consumed session cursors old (new ∷ news) =
      let r = consume_report out (λ sid. some (written (old ++ new))) session cursors in
      counted r.1 + consumed session r.0 (old ++ new) news

  file_full :
      (sid : String) (cursors : Table ℕ) (content : List ℕ)
      → is_empty content ≡ false
      → (get_or 0 (lookup sid (consume_file out sid (some content) cursors).0)
          ≡ (consume_content out (get_or 0 (lookup sid cursors)) content).0)
        × ((consume_file out sid (some content) cursors).1
            ≡ (consume_content out (get_or 0 (lookup sid cursors)) content).1)
  file_full sid cursors content h = ground (
    arith,
    h,
    lookup-insert_self {V = ℕ} sid (consume_content out (get_or 0 (lookup sid cursors)) content).0
        cursors,
  )

  abbrev pub Counts : String → Table ℕ → List (List ℕ) → List (List ℕ) → List (List ℕ) → Type 0
  Counts sid cursors a b new =
      (get_or 0 (lookup sid (consume_file out sid (some (written (a ++ (b ++ new)))) cursors).0)
        ≡ (if reports new then size (a ++ (b ++ new)) else size a))
      × (counted (consume_file out sid (some (written (a ++ (b ++ new)))) cursors).1 ≡ saved new)

  full_step :
      (sid : String) (cursors : Table ℕ) (a b new : List (List ℕ))
      → is_empty (written (a ++ (b ++ new))) ≡ false
      → get_or 0 (lookup sid cursors) ≡ size a
      → All IsLine (a ++ (b ++ new))
      → reports b ≡ false
      → saved new < 18446744073709551616
      → Counts sid cursors a b new
  full_step sid cursors a b new full at h none_in small =
      let content = written (a ++ (b ++ new)) in
      let f = file_full sid cursors content full in
      let m = consume_more a b new h none_in small in
      (
        f.0 ∙ ap (λ c. (consume_content out c content).0) at ∙ m.0,
        ap counted f.1 ∙ ap (λ c. counted (consume_content out c content).1) at ∙ m.1,
      )

  file_step :
      (sid : String) (cursors : Table ℕ) (a b new : List (List ℕ))
      → get_or 0 (lookup sid cursors) ≡ size a
      → All IsLine (a ++ (b ++ new))
      → reports b ≡ false
      → saved new < 18446744073709551616
      → Counts sid cursors a b new
  file_step sid cursors (l ∷ a) b new =
      full_step sid cursors (l ∷ a) b new (written_nonempty l (a ++ (b ++ new)))
  file_step sid cursors [] (l ∷ b) new =
      full_step sid cursors [] (l ∷ b) new (written_nonempty l (b ++ new))
  file_step sid cursors [] [] (l ∷ new) =
      full_step sid cursors [] [] (l ∷ new) (written_nonempty l new)
  file_step sid cursors [] [] [] = λ at h none_in small. (at, refl)

  abbrev pub asked : String → Table ℕ → List (List ℕ) → Table ℕ × Option TokenlessAccumulator
  asked session cursors file = consume_report out (λ sid. some (written file)) session cursors

  asked_file :
      (session : String) (cursors : Table ℕ) (file : List (List ℕ))
      → is_blank (safe_session session) ≡ false
      → asked session cursors file
        ≡ consume_file out (safe_session session) (some (written file)) cursors
  unfolding consume_report
  asked_file session cursors file h = ground (arith, h)

  asked_step :
      (session : String) (cursors : Table ℕ) (a b new : List (List ℕ))
      → is_blank (safe_session session) ≡ false
      → get_or 0 (lookup (safe_session session) cursors) ≡ size a
      → All IsLine (a ++ (b ++ new))
      → reports b ≡ false
      → saved new < 18446744073709551616
      → (get_or 0 (lookup (safe_session session) (asked session cursors ((a ++ b) ++ new)).0)
          ≡ (if reports new then size (a ++ (b ++ new)) else size a))
        × (counted (asked session cursors ((a ++ b) ++ new)).1 ≡ saved new)
  asked_step session cursors a b new named at h none_in small =
      let f = file_step (safe_session session) cursors a b new at h none_in small in
      let e : asked session cursors ((a ++ b) ++ new)
          ≡ consume_file out (safe_session session) (some (written (a ++ (b ++ new)))) cursors =
        asked_file session cursors ((a ++ b) ++ new) named
        ∙ ap (λ file. consume_file out (safe_session session) (some (written file)) cursors)
            (append_assoc a b new) in
      (
        ap (λ r. get_or 0 (lookup (safe_session session) r.0)) e ∙ f.0,
        ap (λ r. counted r.1) e ∙ f.1,
      )

  consumed_from :
      (session : String) (cursors : Table ℕ) (a b : List (List ℕ)) (news : List (List (List ℕ)))
      → is_blank (safe_session session) ≡ false
      → get_or 0 (lookup (safe_session session) cursors) ≡ size a
      → All IsLine (a ++ b)
      → reports b ≡ false
      → All (All IsLine) news
      → saved_all news < 18446744073709551616
      → consumed session cursors (a ++ b) news ≡ saved_all news
  consumed_from session cursors a b [] named at h none_in k small = refl
  consumed_from session cursors a b (new ∷ news) named at h none_in k small =
      let all_lines : All IsLine (a ++ (b ++ new)) =
        subst (All IsLine) (append_assoc a b new) (All-append IsLine (a ++ b) new h k.0) in
      let s = asked_step session cursors a b new named at all_lines none_in (omega arith) in
      let next = (asked session cursors ((a ++ b) ++ new)).0 in
      let rest : consumed session next ((a ++ b) ++ new) news ≡ saved_all news =
        elim (Bool-cases (reports new)) [
          | inl some_in ↦
              ap (λ file. consumed session next file news)
                (append_assoc a b new ∙ sym (append_nil (a ++ (b ++ new))))
              ∙ consumed_from session next (a ++ (b ++ new)) [] news named
                  (ground (arith, s.0, some_in))
                  (subst (All IsLine) (sym (append_nil (a ++ (b ++ new)))) all_lines) refl k.1
                  (omega arith)
          | inr none_new ↦
              ap (λ file. consumed session next file news) (append_assoc a b new)
              ∙ consumed_from session next a (b ++ new) news named (ground (arith, s.0, none_new))
                  all_lines (ground (arith, reports-append b new, none_in, none_new)) k.1
                  (omega arith)
        ] in
      ground (arith, s.1, rest)

  -- No report is lost or counted twice: where the hooks append complete lines to the file of a session
  -- that was not read yet, and the savings stay below 2^64, the calls count together what all the
  -- reports in it saved, however the lines are spread over the calls.
  pub consume_report_once :
      (session : String) (cursors : Table ℕ) (news : List (List (List ℕ)))
      → is_blank (safe_session session) ≡ false
      → lookup (safe_session session) cursors ≡ none
      → All (All IsLine) news
      → saved_all news < 18446744073709551616
      → consumed session cursors [] news ≡ saved_all news
  consume_report_once session cursors news named new k small =
      consumed_from session cursors [] [] news named (ap (get_or 0) new) tt refl k small
