-- ===== src/Core/Report.antt =====
-- crates/core/src/report.rs: the reports that the tokenless hooks append to the file of a session, and
-- the consumption of those that are new. A file is the list of its bytes; its reading, the trimming and
-- parsing of a line and the printing of the breakdown are parameters, and the log of each consumption
-- is left out.
pub mod Kinds
pub mod Laws
mod Tests
use Prim.Native.Char.{code}
use agent_proxy_rust.Common.{
  ℕ, zero, suc, ◌+◌, String, Option, none, some, Bool, true, false, ◌&&◌, ◌||◌, not, List, [], ◌∷◌,
  ◌++◌, if◌then◌else◌, ◌==◌, leb, ltb, length, is_some, is_empty, is_blank, get_or, str_eq, Table,
  lookup, insert, u64,
}

pub record ProxyReport : Type 0 where
  pub project_path : Option String
  pub user_name : Option String
  pub op_type : String
  pub method : Option String
  pub before_tokens : ℕ
  pub after_tokens : ℕ
  pub saved_tokens : ℕ
  pub before_bytes : ℕ
  pub after_bytes : ℕ
  pub saved_bytes : ℕ

pub record TokenlessAccumulator : Type 0 where
  pub total_saved : ℕ
  pub rtk_saved : ℕ
  pub response_saved : ℕ
  pub schema_saved : ℕ
  pub breakdown_json : String
  pub project_path : Option String
  pub user_name : Option String

abbrev pub no_savings : TokenlessAccumulator
no_savings = record {
  total_saved = 0;
  rtk_saved = 0;
  response_saved = 0;
  schema_saved = 0;
  breakdown_json = "";
  project_path = none;
  user_name = none;
}

-- The variables of the loop. The item of a report in the breakdown is the report itself: its object
-- has eight of the fields.
pub record Reading : Type 0 where
  pub acc : TokenlessAccumulator
  pub breakdown_items : List ProxyReport
  pub has_new_lines : Bool

abbrev pub nothing_read : Reading
nothing_read = record { acc = no_savings; breakdown_items = []; has_new_lines = false }

-- The first name that a report carries.
abbrev pub or_first : Option String → Option String → Option String
or_first (some name) new = some name
or_first none new = new

unfoldable pub name_report : ProxyReport → TokenlessAccumulator → TokenlessAccumulator
name_report r acc = record acc {
  project_path = or_first acc.project_path r.project_path;
  user_name = or_first acc.user_name r.user_name;
}

abbrev pub plus_if : Bool → ℕ → ℕ → ℕ
plus_if b n m = if b then u64 (m + n) else m

unfoldable pub save_report : ProxyReport → TokenlessAccumulator → TokenlessAccumulator
save_report r acc = record acc {
  total_saved = u64 (acc.total_saved + r.saved_tokens);
  rtk_saved = plus_if (str_eq r.op_type "rewrite-command") r.saved_tokens acc.rtk_saved;
  response_saved = plus_if (str_eq r.op_type "compress-response") r.saved_tokens acc.response_saved;
  schema_saved = plus_if (str_eq r.op_type "compress-schema") r.saved_tokens acc.schema_saved;
}

-- One report of the file: its names always, its savings only if it is new.
unfoldable pub visit_report : Bool → Option ProxyReport → Reading → Reading
visit_report is_new none st = st
visit_report is_new (some r) st =
    if is_new
    then record {
      acc = save_report r (name_report r st.acc);
      breakdown_items = st.breakdown_items ++ (r ∷ []);
      has_new_lines = true;
    }
    else record st { acc = name_report r st.acc }

abbrev pub newline : ℕ
newline = 10

abbrev pub onto_first : ℕ → List (List ℕ) → List (List ℕ)
onto_first c [] = (c ∷ []) ∷ []
onto_first c (l ∷ ls) = (c ∷ l) ∷ ls

-- `lines`.
unfoldable pub lines : List ℕ → List (List ℕ)
lines [] = []
lines (c ∷ cs) = let rest = lines cs in if c == newline then [] ∷ rest else onto_first c rest

abbrev pub is_safe : ℕ → Bool
is_safe c =
    (leb b'0' c && leb c b'9')
    || (leb b'A' c && leb c b'Z')
    || (leb b'a' c && leb c b'z')
    || c == b'-'
    || c == b'_'

abbrev pub keep_safe : String → String
keep_safe String.[] = String.[]
keep_safe (String.◌∷◌ c s) =
    let rest = keep_safe s in if is_safe (code c) then String.◌∷◌ c rest else rest

abbrev pub take_chars : ℕ → String → String
take_chars zero s = String.[]
take_chars (suc n) String.[] = String.[]
take_chars (suc n) (String.◌∷◌ c s) = String.◌∷◌ c (take_chars n s)

unfoldable pub safe_session : String → String
safe_session session_id = take_chars 128 (keep_safe session_id)

pub record Outside : Type 0 where
  pub trim : List ℕ → List ℕ
  pub parse : List ℕ → Option ProxyReport
  pub print : List ProxyReport → String

module _ (out : Outside) where
  abbrev pub parse_line : List ℕ → Option ProxyReport
  parse_line line = if is_empty (out.trim line) then none else out.parse (out.trim line)

  -- The loop over the lines, of which the first starts at the byte `line_start`.
  unfoldable pub read_lines : ℕ → ℕ → List (List ℕ) → Reading → Reading
  read_lines start_byte line_start [] st = st
  read_lines start_byte line_start (l ∷ ls) st =
      read_lines start_byte (line_start + length l + 1) ls
        (visit_report (leb start_byte line_start) (parse_line l) st)

  abbrev pub finish : Reading → Option TokenlessAccumulator
  finish st =
      if not st.has_new_lines && not (is_some st.acc.project_path || is_some st.acc.user_name)
      then none
      else some (
          if is_empty st.breakdown_items
          then st.acc
          else record st.acc { breakdown_json = out.print st.breakdown_items })

  -- A cursor behind the end of the file is reset.
  abbrev pub from_cursor : ℕ → List ℕ → ℕ
  from_cursor cursor content = if ltb (length content) cursor then 0 else cursor

  -- The next cursor and the savings.
  unfoldable pub consume_content : ℕ → List ℕ → ℕ × Option TokenlessAccumulator
  consume_content cursor content =
      let start_byte = from_cursor cursor content in
      let st = read_lines start_byte 0 (lines content) nothing_read in
      (if st.has_new_lines then length content else start_byte, finish st)

  abbrev pub consume_file :
      String → Option (List ℕ) → Table ℕ → Table ℕ × Option TokenlessAccumulator
  consume_file sid none cursors = (cursors, none)
  consume_file sid (some content) cursors =
      if is_empty content
      then (cursors, none)
      else let r = consume_content (get_or 0 (lookup sid cursors)) content in
        (insert sid r.0 cursors, r.1)

  -- `read` gives the file of a session, if there is one that can be read.
  unfoldable pub consume_report :
      (String → Option (List ℕ)) → String → Table ℕ → Table ℕ × Option TokenlessAccumulator
  consume_report read session_id cursors =
      if is_blank (safe_session session_id)
      then (cursors, none)
      else consume_file (safe_session session_id) (read (safe_session session_id)) cursors
