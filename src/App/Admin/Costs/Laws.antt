-- ===== src/App/Admin/Costs/Laws.antt =====
-- The days of a report, and the savings report.
use agent_proxy_rust.Common.{
  ℕ, ◌+◌, ◌*◌, ◌%◌, ◌≤◌, ◌<◌, ◌≡◌, refl, arith, String, Option, some, none, List, u64,
}
use agent_proxy_rust.Storage.Sql.{take}
use agent_proxy_rust.Storage.Types.{CostFilter}
use agent_proxy_rust.Cost.Record.{CostRecord}
use agent_proxy_rust.Storage.Costs.{Engine, selected, query_cost_records, total}
use agent_proxy_rust.Storage.Costs.Laws.Pages.{IsScan, Lists, selected-Lists}
use agent_proxy_rust.Storage.Channels.Health.{IsUp}
use agent_proxy_rust.App.Admin.Answers.{AdminState, Call, json}
use agent_proxy_rust.App.Admin.Costs.{
  Zone, east, west, compute_time_range, local_seconds, CostReportQuery, cost_savings, savings_of,
}

-- The report of `days` days begins at a local midnight and has the whole of today and of the days
-- before it: nothing of the day before those, and now is within its last day.
pub compute_time_range_days :
    (now days : ℕ) (zone : Zone) (project : Option String)
    → 1 ≤ days
    → (days + 1) * 86400 ≤ now
    → let start = (compute_time_range now days (some zone) project).start in
      (local_seconds zone start % 86400 ≡ 0) × (start ≤ now) × (now < start + days * 86400)
unfolding compute_time_range
compute_time_range_days now days (east minutes) project some_days late =
    (omega arith, omega arith, omega arith)
compute_time_range_days now days (west minutes) project some_days late =
    (omega arith, omega arith, omega arith)

module _ {F : Type 0} (rfc : ℕ → String) (engine : Engine F) where
  -- The records that a savings report is about.
  abbrev pub asked_for : Call → CostReportQuery → CostFilter
  asked_for call query = record {
    project_path = query.project;
    model_name = none;
    channel_name = none;
    time_range = some (compute_time_range call.now query.days query.tz_offset query.project);
    limit = none;
    offset = none;
  }

  -- The savings report sums, modulo 2^64, each column of the newest hundred of the records of the
  -- project in the days that are asked for: all others are left out of it.
  pub cost_savings_truncates :
      (call : Call) (query : CostReportQuery) (st : AdminState F)
      → IsUp (call.conn 0)
      → IsScan engine
      → (listed : List (CostRecord F)) × Lists rfc (asked_for call query) st.db.cost_records listed
        × ((cost_savings rfc engine call query st).1
            ≡ json (record {
              schema_saved_tokens = u64 (total (λ r. r.schema_saved_tokens) (take 100 listed));
              response_saved_tokens = u64 (total (λ r. r.response_saved_tokens) (take 100 listed));
              rtk_saved_tokens = u64 (total (λ r. r.rtk_saved_tokens) (take 100 listed));
              total_saved_tokens = u64 (total (λ r. r.tokens_saved) (take 100 listed));
            }))
  unfolding cost_savings query_cost_records savings_of
  cost_savings_truncates call query st up scans = (
    selected rfc engine (asked_for call query) st.db,
    selected-Lists rfc engine (asked_for call query) st.db scans,
    rw (up.pool, up.statements 0) refl,
  )
