-- ===== src/Storage/Costs/Laws.antt =====
-- The aggregates and the pruning of cost records.
pub mod Pages
use text.Mathlib.TextEquality.{eq_iff}
use agent_proxy_rust.Common.{
  suc, ◌⊎◌, inl, inr, Bool, ◌&&◌, ◌||◌, any, if◌then◌else◌, str_eq, ℕ, ◌+◌, ◌≤◌, ◌≡◌, refl, sym, ap,
  ◌∙◌, String, none, some, true, List, [], ◌∷◌, ◌++◌, map, keep, get_or, min, length, arith, All,
  fun_ext,
}
use agent_proxy_rust.Cost.Record.{CostRecord}
use agent_proxy_rust.Storage.Types.{
  TimeRange, CostFilter, CostGroupBy, project_model_month, project_model_hour, CostAggregate,
}
use agent_proxy_rust.Storage.Sql.{
  Outcome, failed, done, Conn, delete_where, order_by, text_le, page, drop,
}
use agent_proxy_rust.Storage.Sql.Order.{
  total_of, total-order_by, page-add, length-take, total_of-map,
}
use agent_proxy_rust.Storage.Db.{Db}
use agent_proxy_rust.Storage.Costs.{
  selects, selected, page_limit, query_cost_records, groups, into_group, rows_in, total,
  aggregate_row, aggregate_costs, groups_of, Engine, dearest_first, before, prune_cost_records,
  in_project, group_clause, same_group,
}

-- The rows of a call that has some.
abbrev pub rows_done : {A : Type 0} → Outcome (List A) → List A
rows_done (failed e) = []
rows_done (done rows) = rows

-- The groupings whose names have a month or an hour.
abbrev pub IsTimed : CostGroupBy → Type 0
IsTimed by = (by ≡ project_model_month) ⊎ (by ≡ project_model_hour)

length-total_of : {A : Type 0} (xs : List A) → total_of (λ x. 1) xs ≡ length xs
length-total_of [] = refl
length-total_of (x ∷ xs) = omega (arith, length-total_of xs)

module _ {F : Type 0} where
  total-append-groups :
      (by : CostGroupBy) (f : CostRecord F → ℕ) (r : CostRecord F)
      (gs : List (CostRecord F × List (CostRecord F)))
      → total_of (λ g. total f (rows_in g)) (into_group by r gs)
        ≡ f r + total_of (λ g. total f (rows_in g)) gs
  unfolding into_group
  total-append-groups by f r [] = omega arith
  total-append-groups by f r (g ∷ gs) = ground (arith, total-append-groups by f r gs)

  total-groups :
      (by : CostGroupBy) (f : CostRecord F → ℕ) (rs : List (CostRecord F))
      → total_of (λ g. total f (rows_in g)) (groups by rs) ≡ total f rs
  unfolding groups
  total-groups by f [] = refl
  total-groups by f (r ∷ rs) =
      omega (arith, total-append-groups by f r (groups by rs), total-groups by f rs)

  length-total : (rs : List (CostRecord F)) → total (λ r. 1) rs ≡ length rs
  length-total [] = refl
  length-total (r ∷ rs) = omega (arith, length-total rs)

  -- The sum of one column of the answer.
  column-aggregate :
      (e : Engine F) (by : CostGroupBy) (h : CostAggregate F → ℕ) (f : CostRecord F → ℕ)
      (rs : List (CostRecord F))
      → ((g : CostRecord F × List (CostRecord F)) → h (aggregate_row e by g) ≡ total f (rows_in g))
      → total_of h (map (aggregate_row e by) (order_by (dearest_first e) (groups by rs)))
        ≡ total f rs
  column-aggregate e by h f rs eq =
      total_of-map h (aggregate_row e by) (order_by (dearest_first e) (groups by rs))
      ∙ total-order_by (dearest_first e) (λ g. h (aggregate_row e by g)) (groups by rs)
      ∙ ap (λ k. total_of k (groups by rs)) (fun_ext eq)
      ∙ total-groups by f rs

  -- What an aggregation that succeeds answers with.
  aggregate-done :
      (rfc : ℕ → String) (e : Engine F) (conn : Conn) (by : CostGroupBy) (range : TimeRange)
      (db : Db F) {rows : List (CostAggregate F)}
      → (aggregate_costs rfc e conn by range db).1 ≡ done rows
      → map (aggregate_row e by) (order_by (dearest_first e) (groups_of rfc by range db)) ≡ rows
  unfolding aggregate_costs
  aggregate-done rfc e conn by range db h = ground arith

  -- No record is lost or counted twice: whatever the grouping, the rows of an aggregation that
  -- succeeds have together as many requests, input tokens and output tokens as the records of the
  -- time range and project.
  pub aggregate_costs_conserves :
      (rfc : ℕ → String) (e : Engine F) (conn : Conn) (by : CostGroupBy) (range : TimeRange)
      (db : Db F) {rows : List (CostAggregate F)}
      → (aggregate_costs rfc e conn by range db).1 ≡ done rows
      → let rs = keep (in_project rfc range) db.cost_records in
        (total_of (λ a. a.request_count) rows ≡ length rs)
        × (total_of (λ a. a.total_input_tokens) rows ≡ total (λ r. r.input_tokens) rs)
        × (total_of (λ a. a.total_output_tokens) rows ≡ total (λ r. r.output_tokens) rs)
  unfolding aggregate_row
  aggregate_costs_conserves rfc e conn by range db h =
      let rs = keep (in_project rfc range) db.cost_records in
      rw (← aggregate-done rfc e conn by range db h) (
        column-aggregate e by (λ a. a.request_count) (λ r. 1) rs
              (λ g. sym (length-total (rows_in g)))
            ∙ length-total rs,
        column-aggregate e by (λ a. a.total_input_tokens) (λ r. r.input_tokens) rs (λ g. refl),
        column-aggregate e by (λ a. a.total_output_tokens) (λ r. r.output_tokens) rs (λ g. refl),
      )

  -- Two records of the same project and model.
  abbrev pub same_pair : CostRecord F → CostRecord F → Bool
  same_pair a b = str_eq a.project b.project && str_eq a.upstream_model b.upstream_model

  -- How many different pairs of a project and a model some records have.
  abbrev pub pairs : List (CostRecord F) → ℕ
  pairs [] = 0
  pairs (r ∷ rs) = let rest = pairs rs in if any (same_pair r) rs then rest else suc rest

  same_group_pair :
      (by : CostGroupBy) (a b : CostRecord F) → IsTimed by → same_group by a b ≡ same_pair a b
  unfolding group_clause
  same_group_pair by a b (inl e) = rw e refl
  same_group_pair by a b (inr e) = rw e refl

  any-into_group :
      (by : CostGroupBy) (t : IsTimed by) (a r : CostRecord F)
      (gs : List (CostRecord F × List (CostRecord F)))
      → any (λ g. same_pair a g.0) (into_group by r gs)
        ≡ same_pair a r || any (λ g. same_pair a g.0) gs
  unfolding into_group
  any-into_group by t a r [] = refl
  any-into_group by t a r (g ∷ gs) = ground (
    arith,
    any-into_group by t a r gs,
    same_group_pair by r g.0 t,
    eq_iff a.project r.project,
    eq_iff a.project g.0.project,
    eq_iff r.project g.0.project,
    eq_iff a.upstream_model r.upstream_model,
    eq_iff a.upstream_model g.0.upstream_model,
    eq_iff r.upstream_model g.0.upstream_model,
  )

  any-groups :
      (by : CostGroupBy) (t : IsTimed by) (a : CostRecord F) (rs : List (CostRecord F))
      → any (λ g. same_pair a g.0) (groups by rs) ≡ any (same_pair a) rs
  unfolding groups
  any-groups by t a [] = refl
  any-groups by t a (r ∷ rs) =
      any-into_group by t a r (groups by rs) ∙ ap (λ b. same_pair a r || b) (any-groups by t a rs)

  length-into_group :
      (by : CostGroupBy) (t : IsTimed by) (r : CostRecord F)
      (gs : List (CostRecord F × List (CostRecord F)))
      → length (into_group by r gs)
        ≡ (if any (λ g. same_pair r g.0) gs then length gs else suc (length gs))
  unfolding into_group
  length-into_group by t r [] = refl
  length-into_group by t r (g ∷ gs) =
      ground (arith, length-into_group by t r gs, same_group_pair by r g.0 t)

  length-groups :
      (by : CostGroupBy) (t : IsTimed by) (rs : List (CostRecord F))
      → length (groups by rs) ≡ pairs rs
  unfolding groups
  length-groups by t [] = refl
  length-groups by t (r ∷ rs) =
      ground (
        arith,
        length-into_group by t r (groups by rs),
        any-groups by t r rs,
        length-groups by t rs,
      )

  -- The months and the hours are not told apart: by project, model and month, and by project, model
  -- and hour, an aggregation that succeeds has one row for each different pair of a project and a
  -- model in the time range, whatever the months and hours of the records are.
  pub aggregate_costs_merges :
      (rfc : ℕ → String) (e : Engine F) (conn : Conn) (by : CostGroupBy) (range : TimeRange)
      (db : Db F) {rows : List (CostAggregate F)}
      → IsTimed by
      → (aggregate_costs rfc e conn by range db).1 ≡ done rows
      → length rows ≡ pairs (keep (in_project rfc range) db.cost_records)
  aggregate_costs_merges rfc e conn by range db timed h =
      let rs = keep (in_project rfc range) db.cost_records in
      ap length (sym (aggregate-done rfc e conn by range db h))
      ∙ sym (length-total_of (map (aggregate_row e by) (order_by (dearest_first e) (groups by rs))))
      ∙ total_of-map (λ a. 1) (aggregate_row e by) (order_by (dearest_first e) (groups by rs))
      ∙ total-order_by (dearest_first e) (λ g. 1) (groups by rs)
      ∙ length-total_of (groups by rs)
      ∙ length-groups by timed rs

  delete_before :
      (cutoff : String) (rs : List (CostRecord F))
      → All (λ r. text_le cutoff r.timestamp ≡ true) (delete_where (before cutoff) rs)
  delete_before cutoff [] = tt
  delete_before cutoff (r ∷ rs) = ground (arith, delete_before cutoff rs)

  count_before :
      (cutoff : String) (rs : List (CostRecord F))
      → length (keep (before cutoff) rs) + length (delete_where (before cutoff) rs) ≡ length rs
  count_before cutoff [] = omega arith
  count_before cutoff (r ∷ rs) = ground (arith, count_before cutoff rs)

  -- Pruning: what stays is not older than the cutoff, and the answer counts what went.
  pub prune_cost_records_counts :
      (conn : Conn) (cutoff : String) (db : Db F) {n : ℕ}
      → (prune_cost_records conn cutoff db).1 ≡ done n
      → let left = (prune_cost_records conn cutoff db).0.cost_records in
        All (λ r. text_le cutoff r.timestamp ≡ true) left
        × (n + length left ≡ length db.cost_records)
  unfolding prune_cost_records
  prune_cost_records_counts conn cutoff db h =
      ground (arith, delete_before cutoff db.cost_records, count_before cutoff db.cost_records)
