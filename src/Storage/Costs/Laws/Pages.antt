-- ===== src/Storage/Costs/Laws/Pages.antt =====
-- What `query_cost_records` answers: a page of the records that match, newest first.
use agent_proxy_rust.Common.{
  ℕ, ◌≡◌, refl, ◌∙◌, String, Option, none, some, true, List, [], ◌∷◌, keep, get_or, min, arith, All,
  Bool-cases, inl, inr, eq_iff,
}
use agent_proxy_rust.Cost.Record.{CostRecord}
use agent_proxy_rust.Storage.Types.{TimeRange, CostFilter}
use agent_proxy_rust.Storage.Sql.{done, Conn, text_le, text_lt, take, drop}
use agent_proxy_rust.Storage.Sql.Order.{
  Rises, order_by-Rises, All-order_by, text_le_total, text_le_trans, total_of, total-order_by,
}
use agent_proxy_rust.Storage.Db.{Db}
use agent_proxy_rust.Storage.Costs.{
  Engine, selects, selected, query_cost_records, given, in_range, newest_first,
}

given-Named :
    (o : Option String) (s : String) → given o s ≡ true → (p : String) → o ≡ some p → s ≡ p
given-Named o s h p e = ground (arith, eq_iff s p)

named_given :
    (o : Option String) (s : String) → ((p : String) → o ≡ some p → s ≡ p) → given o s ≡ true
named_given none s h = refl
named_given (some p) s h = (eq_iff s p).1 (h p refl)

module _ {F : Type 0} where
  -- The record is of the project, the model, the channel and the time that the filter names.
  abbrev pub Matches : (ℕ → String) → CostFilter → CostRecord F → Type 0
  Matches rfc filter r =
      ((p : String) → filter.project_path ≡ some p → r.project ≡ p)
      × ((m : String) → filter.model_name ≡ some m → r.upstream_model ≡ m)
      × ((c : String) → filter.channel_name ≡ some c → r.channel_id ≡ c)
      × ((range : TimeRange)
          → filter.time_range ≡ some range
          → (text_le (rfc range.start) r.timestamp ≡ true)
            × (text_lt r.timestamp (rfc range.finish) ≡ true))

  -- The records of a table that match, newest first: for any weight that only they have, the list
  -- weighs as much as the table.
  abbrev pub Lists : (ℕ → String) → CostFilter → List (CostRecord F) → List (CostRecord F) → Type 0
  Lists rfc filter table listed =
      All (Matches rfc filter) listed
      × Rises (λ a b. text_le b.timestamp a.timestamp) listed
      × ((weight : CostRecord F → ℕ)
          → ((r : CostRecord F) → ¬ Matches rfc filter r → weight r ≡ 0)
          → total_of weight listed ≡ total_of weight table)

  -- The engine reads every row once.
  abbrev pub IsScan : Engine F → Type 0
  IsScan e =
      (weight : CostRecord F → ℕ) (rows : List (CostRecord F))
      → total_of weight (e.scan rows) ≡ total_of weight rows

  selects-Matches :
      (rfc : ℕ → String) (filter : CostFilter) (r : CostRecord F)
      → selects rfc filter r ≡ true
      → Matches rfc filter r
  unfolding selects
  selects-Matches rfc filter r h = (
    given-Named filter.project_path r.project (ground arith),
    given-Named filter.model_name r.upstream_model (ground arith),
    given-Named filter.channel_name r.channel_id (ground arith),
    λ range e. ground arith,
  )

  timed_in_range :
      (rfc : ℕ → String) (o : Option TimeRange) (r : CostRecord F)
      → ((range : TimeRange)
          → o ≡ some range
          → (text_le (rfc range.start) r.timestamp ≡ true)
            × (text_lt r.timestamp (rfc range.finish) ≡ true))
      → in_range rfc o r ≡ true
  timed_in_range rfc none r h = refl
  timed_in_range rfc (some range) r h = ground (arith, h range refl)

  Matches-selects :
      (rfc : ℕ → String) (filter : CostFilter) (r : CostRecord F)
      → Matches rfc filter r
      → selects rfc filter r ≡ true
  unfolding selects
  Matches-selects rfc filter r (p, m, c, t) = ground (
    arith,
    named_given filter.project_path r.project p,
    named_given filter.model_name r.upstream_model m,
    named_given filter.channel_name r.channel_id c,
    timed_in_range rfc filter.time_range r t,
  )

  keep-Matches :
      (rfc : ℕ → String) (filter : CostFilter) (rs : List (CostRecord F))
      → All (Matches rfc filter) (keep (selects rfc filter) rs)
  keep-Matches rfc filter [] = tt
  keep-Matches rfc filter (r ∷ rs) = elim (Bool-cases (selects rfc filter r)) [
    | inl fits ↦ rw fits (selects-Matches rfc filter r fits, keep-Matches rfc filter rs)
    | inr differs ↦ rw differs (keep-Matches rfc filter rs)
  ]

  total-keep :
      (rfc : ℕ → String) (filter : CostFilter) (weight : CostRecord F → ℕ)
      (rs : List (CostRecord F))
      → ((r : CostRecord F) → ¬ Matches rfc filter r → weight r ≡ 0)
      → total_of weight (keep (selects rfc filter) rs) ≡ total_of weight rs
  total-keep rfc filter weight [] h = refl
  total-keep rfc filter weight (r ∷ rs) h = elim (Bool-cases (selects rfc filter r)) [
    | inl fits ↦ ground (arith, fits, total-keep rfc filter weight rs h)
    | inr differs ↦
        let light : weight r ≡ 0 = h r (λ m. ground (arith, Matches-selects rfc filter r m)) in
        ground (arith, differs, light, total-keep rfc filter weight rs h)
  ]

  pub selected-Lists :
      (rfc : ℕ → String) (e : Engine F) (filter : CostFilter) (db : Db F)
      → IsScan e
      → Lists rfc filter db.cost_records (selected rfc e filter db)
  selected-Lists rfc e filter db scans =
      let found = keep (selects rfc filter) (e.scan db.cost_records) in
      (
        All-order_by newest_first (Matches rfc filter) found
            (keep-Matches rfc filter (e.scan db.cost_records)),
        order_by-Rises newest_first (λ a b. text_le_total b.timestamp a.timestamp)
            (λ a b c h k. text_le_trans c.timestamp b.timestamp a.timestamp k h) found,
        λ weight light.
            total-order_by newest_first weight found
            ∙ total-keep rfc filter weight (e.scan db.cost_records) light
            ∙ scans weight db.cost_records,
      )

  -- The records that a query is answered with are a page of a list of all records that match, newest
  -- first: as many as are asked for, or a hundred, and never more than a thousand, behind the offset.
  pub query_cost_records_lem :
      (rfc : ℕ → String) (e : Engine F) (conn : Conn) (filter : CostFilter) (db : Db F)
      {rs : List (CostRecord F)}
      → IsScan e
      → (query_cost_records rfc e conn filter db).1 ≡ done rs
      → (listed : List (CostRecord F)) × Lists rfc filter db.cost_records listed
        × (rs ≡ take (min (get_or 100 filter.limit) 1000) (drop (get_or 0 filter.offset) listed))
  unfolding query_cost_records
  query_cost_records_lem rfc e conn filter db scans h =
      (selected rfc e filter db, selected-Lists rfc e filter db scans, ground arith)
