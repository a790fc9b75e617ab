-- ===== src/Storage/Tests.antt =====
-- Instances of the laws of the storage.
use agent_proxy_rust.Common.{
  ℕ, ◌≡◌, refl, String, none, some, true, false, List, [], ◌∷◌, arith, keep, length, All,
  map_option, str_eq, if◌then◌else◌, min, get_or, inl,
}
use agent_proxy_rust.Storage.Types.{
  Channel, CostAggregate, CostFilter, by_project, project_model_month, ModelAliasRequest,
}
use agent_proxy_rust.Storage.Sql.{done, insert_row, order_by, take, drop}
use agent_proxy_rust.Storage.Sql.Order.{Rises, total_of}
use agent_proxy_rust.Storage.Samples.{
  spent, up, up-IsUp, row, mapping, alias, db, year, range, engine,
}
use agent_proxy_rust.Storage.Channels.{
  priority_le, list_channels, row_to_channel, mark_channel_healthy, stored,
}
use agent_proxy_rust.Storage.Channels.Spec.{Call, upsert, delete, fail, run_calls, replay}
use agent_proxy_rust.Storage.Channels.Refinement.{rows_of, run_calls_refines}
use agent_proxy_rust.Storage.Channels.Health.{
  health_of, health_after, Failure, fail_all, record_channel_failure_counts,
}
use agent_proxy_rust.Storage.Channels.Listing.{IsMarked, list_channels_lem}
use agent_proxy_rust.Storage.Costs.{
  aggregate_costs, groups, into_group, aggregate_row, group_clause, group_key_expr, in_project,
  total, query_cost_records, selects,
}
use agent_proxy_rust.Storage.Costs.Laws.{pairs, aggregate_costs_conserves, aggregate_costs_merges}
use agent_proxy_rust.Storage.Costs.Laws.Pages.{Lists, query_cost_records_lem}
use agent_proxy_rust.Cost.Record.{CostRecord}
use agent_proxy_rust.Storage.Aliases.{upsert_model_alias, get_model_alias_target, alias_named}
use agent_proxy_rust.Storage.Aliases.Laws.{target_set, target_in, get-upsert_model_alias}
use agent_proxy_rust.Storage.Lifecycle.{migrate}
use agent_proxy_rust.Storage.Lifecycle.Laws.{migrate-keeps}
use agent_proxy_rust.Storage.Integrity.{IsSound}
use agent_proxy_rust.Storage.Integrity.Runs.{
  WriteCall, channel, put_mapping, run_writes, run_writes-IsSound,
}
use agent_proxy_rust.Storage.Seed.{SeedDb, SeedOutside}
use agent_proxy_rust.Storage.Seed.Refresh.{seed_refresh}
use agent_proxy_rust.Storage.Seed.Laws.{settings, seed_refresh-settings}

abbrev calls : List Call
calls =
    record { conn = up; now = 5; later = "soon"; command = upsert (row "c" 3) }
    ∷ record { conn = up; now = 6; later = "soon"; command = fail "a" }
    ∷ record { conn = up; now = 7; later = "soon"; command = delete "b" }
    ∷ []

run_calls_refines_example : rows_of (run_calls calls db) ≡ replay calls (rows_of db)
run_calls_refines_example = run_calls_refines calls db

abbrev writes : List WriteCall
writes =
    record { conn = up; now = 5; later = "soon"; write = put_mapping (mapping "m2" "b") }
    ∷ record { conn = up; now = 6; later = "soon"; write = put_mapping (mapping "m3" "x") }
    ∷ record { conn = up; now = 7; later = "soon"; write = channel (delete "a") }
    ∷ []

db-IsSound : IsSound db
db-IsSound = record {
  channel_ids = (refl, (refl, tt));
  mapping_ids = (refl, tt);
  linked = (refl, tt);
}

run_writes-IsSound_example : IsSound (run_writes writes db)
run_writes-IsSound_example = run_writes-IsSound writes db (refl, (refl, (refl, tt))) db-IsSound

abbrev failures : List Failure
failures = (9, "soon") ∷ (8, "sooner") ∷ (7, "first") ∷ []

record_channel_failure_counts_example :
    map_option health_of
      (stored "a" (fail_all up "a" failures (mark_channel_healthy up 6 "a" db).0))
    ≡ some (health_after 3 "soon")
record_channel_failure_counts_example =
    record_channel_failure_counts up 6 "a" failures db up-IsUp (omega arith) refl

abbrev in_order : List Channel
in_order = row "a" 1 ∷ row "b" 2 ∷ []

listed : (list_channels up none db).1 ≡ done in_order
unfolding list_channels row_to_channel order_by insert_row
listed = refl

list_channels_lem_example :
    Rises priority_le in_order
    × ((weight : String → ℕ)
        → total_of (λ ch. weight ch.id) in_order ≡ total_of (λ ch. weight ch.id) db.channels)
    × All IsMarked in_order
list_channels_lem_example = list_channels_lem up db listed

abbrev one_row : List (CostAggregate ℕ)
one_row =
    record {
      group_key = "p";
      total_input_tokens = 30;
      total_output_tokens = 2;
      total_actual_cost = 4;
      total_compression_tokens_saved = 0;
      request_count = 2;
    }
    ∷ []

aggregated : (aggregate_costs year engine up by_project range db).1 ≡ done one_row
unfolding aggregate_costs groups into_group aggregate_row group_clause group_key_expr order_by
    insert_row
aggregated = refl

aggregate_costs_conserves_example :
    let rs = keep (in_project year range) db.cost_records in
    (total_of (λ a. a.request_count) one_row ≡ length rs)
    × (total_of (λ a. a.total_input_tokens) one_row ≡ total (λ r. r.input_tokens) rs)
    × (total_of (λ a. a.total_output_tokens) one_row ≡ total (λ r. r.output_tokens) rs)
aggregate_costs_conserves_example =
    aggregate_costs_conserves year engine up by_project range db aggregated

-- January and February in one row.
abbrev merged_row : List (CostAggregate ℕ)
merged_row =
    record {
      group_key = "p|m|2026-01";
      total_input_tokens = 30;
      total_output_tokens = 2;
      total_actual_cost = 4;
      total_compression_tokens_saved = 0;
      request_count = 2;
    }
    ∷ []

merged : (aggregate_costs year engine up project_model_month range db).1 ≡ done merged_row
unfolding aggregate_costs groups into_group aggregate_row group_clause group_key_expr order_by
    insert_row
merged = refl

aggregate_costs_merges_example :
    length merged_row ≡ pairs (keep (in_project year range) db.cost_records)
aggregate_costs_merges_example =
    aggregate_costs_merges year engine up project_model_month range db (inl refl) merged

abbrev everything : CostFilter
everything = record {
  project_path = none;
  model_name = none;
  channel_name = none;
  time_range = none;
  limit = none;
  offset = none;
}

abbrev second_only : CostFilter
second_only = record everything { limit = some 1; offset = some 1 }

abbrev second_row : List (CostRecord ℕ)
second_row = spent "r1" "2026-01-05" 10 ∷ []

asked : (query_cost_records year engine up second_only db).1 ≡ done second_row
unfolding query_cost_records selects order_by insert_row
asked = refl

query_cost_records_lem_example :
    (listed : List (CostRecord ℕ)) × Lists year second_only db.cost_records listed
    × (second_row ≡ take (min (get_or 100 (some 1)) 1000) (drop (get_or 0 (some 1)) listed))
query_cost_records_lem_example =
    query_cost_records_lem year engine up second_only db (λ weight rows. refl) asked

abbrev renamed : ModelAliasRequest
renamed = record { alias_name = "gpt-5.5"; target_model = "other"; enabled = true }

get-upsert_model_alias_example :
    (get_model_alias_target up "gpt-5.5" (upsert_model_alias up "later" renamed db).0).1
    ≡ done (
        if str_eq "gpt-5.5" "gpt-5.5"
        then target_set renamed
        else target_in "gpt-5.5" db.model_aliases)
get-upsert_model_alias_example = get-upsert_model_alias up "later" "gpt-5.5" renamed db up-IsUp

migrate-keeps_example : alias_named "gpt-5.5" (migrate up 2 "now" db).0 ≡ some alias
migrate-keeps_example = migrate-keeps up 2 "now" "gpt-5.5" db refl

abbrev remote : SeedOutside ℕ
remote = record {
  parse_providers = λ s. none;
  parse_models = λ s. none;
  parse_channels = λ s. some (
      record {
        id = "a";
        name = "New";
        api_key = "";
        protocol = "openai_chat";
        protocols = "[]";
        is_builtin = true;
        enabled = false;
        billing_type = "metered";
        monthly_quota = none;
        quota_policy = "fallback";
        priority = 9;
      }
      ∷ []);
  parse_mappings = λ s. none;
  json_error = λ s. "bad";
  sha256 = λ s. "hash";
  fetch = λ url. done "[]";
  fetch_manifest = λ url. done (record {
    version = 2;
    min_schema_version = 1;
    updated_at = "";
    entries = ("channels", record { file = "channels.json"; sha256 = "hash" }) ∷ [];
  });
  trouble = λ id. none;
  foreign_key_failed = "FOREIGN KEY";
  print_u32 = λ n. "2";
  parse_u32 = λ s. some 1;
  print_error = λ e. "";
}

abbrev seeded : SeedDb ℕ
seeded = record { db = db; metadata = ("version", "1") ∷ [] }

seed_refresh-settings_example :
    map_option settings
      (stored "a" (seed_refresh remote 9 (some "http://seed/") none "now" seeded).0.db)
    ≡ some ("key", true, none, "Healthy", none, 0, (row "a" 1).created_at)
seed_refresh-settings_example =
    seed_refresh-settings remote 9 (some "http://seed/") none "now" "a" seeded refl
