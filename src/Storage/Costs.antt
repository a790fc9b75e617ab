-- ===== src/Storage/Costs.antt =====
-- The cost record methods of crates/storage-sqlite/src/lib.rs, on records with numbers below 2^63.
-- `rfc` writes a number of seconds as a time. What SQLite decides is a parameter: how it adds reals,
-- and from which row of a group it takes a column that no `GROUP BY` fixes.
pub mod Laws
use agent_proxy_rust.Core.Error.{◌<>◌}
use Prim.Native.String
use agent_proxy_rust.Common.{
  ℕ, zero, suc, ◌+◌, ◌≤◌, String, Option, none, some, Bool, true, false, not, ◌||◌, ◌&&◌, List, [],
  ◌∷◌, ◌++◌, map, if◌then◌else◌, str_eq, leb, any, keep, get_or, min, length,
}
use agent_proxy_rust.Cost.Record.{CostRecord}
use agent_proxy_rust.Storage.Types.{
  TimeRange, CostFilter, CostGroupBy, by_project, by_model, by_channel, project_model_month,
  project_model_hour, hourly, daily, CostAggregate, backend,
}
use agent_proxy_rust.Storage.Sql.{
  Outcome, failed, done, Conn, with_conn, statement, delete_where, order_by, text_le, text_lt, page,
}
use agent_proxy_rust.Storage.Db.{Db}
use agent_proxy_rust.Storage.Channels.{i64_max}

-- `substr(s, 1, n)`.
abbrev pub substr : String → ℕ → String
substr s zero = String.[]
substr String.[] (suc n) = String.[]
substr (String.◌∷◌ c s) (suc n) = String.◌∷◌ c (substr s n)

abbrev pub given : Option String → String → Bool
given none s = true
given (some wanted) s = str_eq s wanted

-- `SELECT DISTINCT`.
unfoldable pub distinct : List String → List String
distinct [] = []
distinct (s ∷ rest) = s ∷ delete_where (str_eq s) (distinct rest)

pub record Engine (F : Type 0) : Type 0 where
  pub sum_real : List F → F
  pub real_le : F → F → Bool
  pub bare : CostRecord F → List (CostRecord F) → CostRecord F
  -- The order in which the rows of the table are read, which is that of rows that ORDER BY does not
  -- tell apart.
  pub scan : List (CostRecord F) → List (CostRecord F)

abbrev pub page_limit : CostFilter → ℕ
page_limit filter = min (get_or 100 filter.limit) 1000

module _ {F : Type 0} where
  abbrev pub record_id : String → CostRecord F → Bool
  record_id id r = str_eq r.id id

  unfoldable pub insert_cost_record : Conn → CostRecord F → Db F → Db F × Outcome (Unit {0})
  insert_cost_record conn r db = with_conn conn db (
      statement (conn.trouble 0) db (
        if any (record_id r.id) db.cost_records
        then (db, failed (backend conn.unique_failed))
        else (record db { cost_records = db.cost_records ++ (r ∷ []) }, done tt)))

  abbrev pub within : (ℕ → String) → TimeRange → CostRecord F → Bool
  within rfc range r =
      text_le (rfc range.start) r.timestamp && text_lt r.timestamp (rfc range.finish)

  abbrev pub in_range : (ℕ → String) → Option TimeRange → CostRecord F → Bool
  in_range rfc none r = true
  in_range rfc (some range) r = within rfc range r

  -- The `WHERE` clause that the filter builds.
  unfoldable pub selects : (ℕ → String) → CostFilter → CostRecord F → Bool
  selects rfc filter r =
      given filter.project_path r.project
      && given filter.model_name r.upstream_model
      && given filter.channel_name r.channel_id
      && in_range rfc filter.time_range r

  -- `ORDER BY timestamp DESC`.
  abbrev pub newest_first : CostRecord F → CostRecord F → Bool
  newest_first a b = text_le b.timestamp a.timestamp

  abbrev pub selected : (ℕ → String) → Engine F → CostFilter → Db F → List (CostRecord F)
  selected rfc e filter db =
      order_by newest_first (keep (selects rfc filter) (e.scan db.cost_records))

  unfoldable pub query_cost_records :
      (ℕ → String) → Engine F → Conn → CostFilter → Db F → Db F × Outcome (List (CostRecord F))
  query_cost_records rfc e conn filter db = with_conn conn db (
      statement (conn.trouble 0) db
        (db, done (page (page_limit filter) (get_or 0 filter.offset) (selected rfc e filter db))))

  -- The columns of `GROUP BY`.
  unfoldable pub group_clause : CostGroupBy → CostRecord F → String × String
  group_clause by_project r = (r.project, "")
  group_clause by_model r = (r.channel_id, "")
  group_clause by_channel r = (r.channel_id, "")
  group_clause project_model_month r = (r.project, r.upstream_model)
  group_clause project_model_hour r = (r.project, r.upstream_model)
  group_clause hourly r = (substr r.timestamp 13, "")
  group_clause daily r = (substr r.timestamp 10, "")

  unfoldable pub group_key_expr : CostGroupBy → CostRecord F → String
  group_key_expr by_project r = r.project
  group_key_expr by_model r = r.channel_id
  group_key_expr by_channel r = r.channel_id
  group_key_expr project_model_month r =
      r.project <> "|" <> r.upstream_model <> "|" <> substr r.timestamp 7
  group_key_expr project_model_hour r =
      r.project <> "|" <> r.upstream_model <> "|" <> substr r.timestamp 13
  group_key_expr hourly r = substr r.timestamp 13
  group_key_expr daily r = substr r.timestamp 10

  -- A group has a first row and the others.
  abbrev pub rows_in : CostRecord F × List (CostRecord F) → List (CostRecord F)
  rows_in g = g.0 ∷ g.1

  abbrev pub same_group : CostGroupBy → CostRecord F → CostRecord F → Bool
  same_group by a b =
      str_eq (group_clause by a).0 (group_clause by b).0
      && str_eq (group_clause by a).1 (group_clause by b).1

  unfoldable pub into_group :
      CostGroupBy
      → CostRecord F
      → List (CostRecord F × List (CostRecord F))
      → List (CostRecord F × List (CostRecord F))
  into_group by r [] = (r, []) ∷ []
  into_group by r (g ∷ gs) =
      if same_group by r g.0 then (r, rows_in g) ∷ gs else g ∷ into_group by r gs

  unfoldable pub groups :
      CostGroupBy → List (CostRecord F) → List (CostRecord F × List (CostRecord F))
  groups by [] = []
  groups by (r ∷ rs) = into_group by r (groups by rs)

  abbrev pub total : (CostRecord F → ℕ) → List (CostRecord F) → ℕ
  total f [] = 0
  total f (r ∷ rs) = f r + total f rs

  abbrev pub group_cost : Engine F → CostRecord F × List (CostRecord F) → F
  group_cost e g = e.sum_real (map (λ r. r.cost) (rows_in g))

  unfoldable pub aggregate_row :
      Engine F → CostGroupBy → CostRecord F × List (CostRecord F) → CostAggregate F
  aggregate_row e by g = record {
    group_key = group_key_expr by (e.bare g.0 g.1);
    total_input_tokens = total (λ r. r.input_tokens) (rows_in g);
    total_output_tokens = total (λ r. r.output_tokens) (rows_in g);
    total_actual_cost = group_cost e g;
    total_compression_tokens_saved = total (λ r. r.compression_tokens_saved) (rows_in g);
    request_count = length (rows_in g);
  }

  -- A sum beyond `i64` is an error of the engine.
  abbrev pub sums_fit : CostRecord F × List (CostRecord F) → Bool
  sums_fit g =
      leb (total (λ r. r.input_tokens) (rows_in g)) i64_max
      && leb (total (λ r. r.output_tokens) (rows_in g)) i64_max
      && leb (total (λ r. r.compression_tokens_saved) (rows_in g)) i64_max

  abbrev pub in_project : (ℕ → String) → TimeRange → CostRecord F → Bool
  in_project rfc range r = within rfc range r && given range.project r.project

  abbrev pub dearest_first :
      Engine F → CostRecord F × List (CostRecord F) → CostRecord F × List (CostRecord F) → Bool
  dearest_first e a b = e.real_le (group_cost e b) (group_cost e a)

  abbrev pub groups_of :
      (ℕ → String) → CostGroupBy → TimeRange → Db F → List (CostRecord F × List (CostRecord F))
  groups_of rfc by range db = groups by (keep (in_project rfc range) db.cost_records)

  unfoldable pub aggregate_costs :
      (ℕ → String)
      → Engine F
      → Conn
      → CostGroupBy
      → TimeRange
      → Db F
      → Db F × Outcome (List (CostAggregate F))
  aggregate_costs rfc e conn by range db = with_conn conn db (
      statement (conn.trouble 0) db (
        db,
        (if any (λ g. not (sums_fit g)) (groups_of rfc by range db)
            then failed (backend conn.integer_overflow)
            else done (
                map (aggregate_row e by) (order_by (dearest_first e) (groups_of rfc by range db)))),
      ))

  -- `cutoff` is the time that is so many days ago.
  abbrev pub before : String → CostRecord F → Bool
  before cutoff r = text_lt r.timestamp cutoff

  unfoldable pub prune_cost_records : Conn → String → Db F → Db F × Outcome ℕ
  prune_cost_records conn cutoff db = with_conn conn db (
      statement (conn.trouble 0) db (
        record db { cost_records = delete_where (before cutoff) db.cost_records },
        done (length (keep (before cutoff) db.cost_records)),
      ))

  unfoldable pub list_projects : Conn → Db F → Db F × Outcome (List String)
  list_projects conn db = with_conn conn db (
      statement (conn.trouble 0) db
        (db, done (order_by text_le (distinct (map (λ r. r.project) db.cost_records)))))
