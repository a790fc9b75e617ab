-- ===== src/App/Admin/Costs.antt =====
-- The handlers of cost records. Times are whole seconds since the epoch; a start before the epoch is
-- the epoch. `rfc` writes a time, and `engine` is what SQLite decides of an aggregation.
pub mod Laws
use agent_proxy_rust.Common.{
  ℕ, ◌+◌, ◌-◌, ◌*◌, ◌/◌, String, Option, none, some, Bool, true, List, [], ◌∷◌, if◌then◌else◌,
  str_eq, keep, min, is_some, starts_with, u64,
}
use agent_proxy_rust.Cost.Record.{CostRecord}
use agent_proxy_rust.Storage.Types.{
  TimeRange, CostFilter, CostGroupBy, by_project, project_model_month, hourly, daily, CostAggregate,
}
use agent_proxy_rust.Storage.Sql.{Conn}
use agent_proxy_rust.Storage.Costs.{
  Engine, query_cost_records as select_cost_records, aggregate_costs, prune_cost_records, total,
}
use agent_proxy_rust.App.Admin.Answers.{
  AdminState, Call, ApiResult, json, storage_error, try_storage,
}

-- A time zone: minutes east or west of UTC.
pub data Zone : Type 0 where
  east west : ℕ → Zone

-- The offset in seconds, within 14 hours to the east and 12 to the west.
abbrev pub local_seconds : Zone → ℕ → ℕ
local_seconds (east minutes) t = t + min minutes 840 * 60
local_seconds (west minutes) t = t - min minutes 720 * 60

abbrev pub utc_seconds : Zone → ℕ → ℕ
utc_seconds (east minutes) t = t - min minutes 840 * 60
utc_seconds (west minutes) t = t + min minutes 720 * 60

abbrev pub range_start : ℕ → ℕ → Option Zone → ℕ
range_start now days none = now - days * 86400
range_start now days (some zone) =
    utc_seconds zone (local_seconds zone now / 86400 * 86400 - (days - 1) * 86400)

unfoldable pub compute_time_range : ℕ → ℕ → Option Zone → Option String → TimeRange
compute_time_range now days zone project = record {
  start = range_start now days zone;
  finish = now;
  project = project;
}

pub record CostReportQuery : Type 0 where
  pub project : Option String
  pub days : ℕ
  pub group_by : Option String
  pub tz_offset : Option Zone

pub record CostRecordsQuery : Type 0 where
  pub project : Option String
  pub model_name : Option String
  pub channel_name : Option String
  pub days : Option ℕ
  pub limit : Option ℕ
  pub offset : Option ℕ
  pub tz_offset : Option Zone

pub record CompressionSavingsReport : Type 0 where
  pub schema_saved_tokens : ℕ
  pub response_saved_tokens : ℕ
  pub rtk_saved_tokens : ℕ
  pub total_saved_tokens : ℕ

abbrev pub starts_in :
    {F : Type 0} → Option String → List (CostAggregate F) → List (CostAggregate F)
starts_in none rows = rows
starts_in (some project) rows = keep (λ row. starts_with row.group_key project) rows

abbrev pub range_of : CostRecordsQuery → ℕ → Option TimeRange
range_of query now = elim query.days [
  | none ↦ none
  | some days ↦ some (compute_time_range now days query.tz_offset none)
]

module _ {F : Type 0} (rfc : ℕ → String) (engine : Engine F) where
  unfoldable pub query_cost_records :
      Call → CostRecordsQuery → AdminState F → AdminState F × ApiResult (List (CostRecord F))
  query_cost_records call query st =
      try_storage storage_error st
        (select_cost_records rfc engine (call.conn 0)
          (record {
            project_path = query.project;
            model_name = query.model_name;
            channel_name = query.channel_name;
            time_range = range_of query call.now;
            limit = query.limit;
            offset = query.offset;
          })
          st.db)
        λ st' records. (st', json records)

  unfoldable pub cost_report :
      Call → CostReportQuery → AdminState F → AdminState F × ApiResult (List (CostAggregate F))
  cost_report call query st =
      try_storage storage_error st
        (aggregate_costs rfc engine (call.conn 0)
          (if is_some query.project then project_model_month else by_project)
          (compute_time_range call.now query.days query.tz_offset none) st.db)
        λ st' results. (st', json (starts_in query.project results))

  -- The filter has no limit of its own.
  abbrev pub savings_filter : Call → CostReportQuery → CostFilter
  savings_filter call query = record {
    project_path = query.project;
    model_name = none;
    channel_name = none;
    time_range = some (compute_time_range call.now query.days query.tz_offset query.project);
    limit = none;
    offset = none;
  }

  -- The sums of `i64` wrap: the report has their 64 bits.
  unfoldable pub savings_of : List (CostRecord F) → CompressionSavingsReport
  savings_of records = record {
    schema_saved_tokens = u64 (total (λ r. r.schema_saved_tokens) records);
    response_saved_tokens = u64 (total (λ r. r.response_saved_tokens) records);
    rtk_saved_tokens = u64 (total (λ r. r.rtk_saved_tokens) records);
    total_saved_tokens = u64 (total (λ r. r.tokens_saved) records);
  }

  unfoldable pub cost_savings :
      Call → CostReportQuery → AdminState F → AdminState F × ApiResult CompressionSavingsReport
  cost_savings call query st =
      try_storage storage_error st
        (select_cost_records rfc engine (call.conn 0) (savings_filter call query) st.db)
        λ st' records. (st', json (savings_of records))

  abbrev pub trend_of : Option String → CostGroupBy
  trend_of none = hourly
  trend_of (some name) = if str_eq name "daily" then daily else hourly

  unfoldable pub cost_trend :
      Call → CostReportQuery → AdminState F → AdminState F × ApiResult (List (CostAggregate F))
  cost_trend call query st =
      try_storage storage_error st
        (aggregate_costs rfc engine (call.conn 0) (trend_of query.group_by)
          (compute_time_range call.now query.days query.tz_offset query.project) st.db)
        λ st' results. (st', json results)

  -- `cutoff` is the time that is so many days ago.
  unfoldable pub prune_cost_records_handler :
      Call → String → AdminState F → AdminState F × ApiResult ℕ
  prune_cost_records_handler call cutoff st =
      try_storage storage_error st (prune_cost_records (call.conn 0) cutoff st.db)
        λ st' deleted. (st', json deleted)
