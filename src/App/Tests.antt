-- ===== src/App/Tests.antt =====
-- Instances of the laws of the admin API.
use mathlib.Core.List.{Memᴰ}
use agent_proxy_rust.Common.{
  u64, ℕ, ◌+◌, ◌*◌, ◌%◌, ◌≤◌, ◌<◌, ◌≡◌, ◌≢◌, refl, none, some, true, List, [], ◌∷◌, arith, get_or,
}
use agent_proxy_rust.Samples.{whole}
use agent_proxy_rust.Storage.Types.{Channel, Model}
use agent_proxy_rust.Storage.Sql.{done, take}
use agent_proxy_rust.Storage.Samples.{up, up-IsUp, row, mapping, db, year, engine}
use agent_proxy_rust.Storage.Channels.{
  ChannelPatch, get_channel, update_channel as store_channel,
  set_channel_api_key as store_channel_api_key, row_to_channel, patch_channel,
}
use agent_proxy_rust.Router.Select.{ResolvedChannel, has_api_key}
use agent_proxy_rust.Router.Handler.{key_of}
use agent_proxy_rust.Router.Samples.{entry, house, offer, per_use, state_of, prices}
use agent_proxy_rust.App.Key.{admin_auth_middleware}
use agent_proxy_rust.App.Key.Laws.{admin_auth_middleware_lem}
use agent_proxy_rust.App.Probe.{status, find_cheapest_model, cheapest}
use agent_proxy_rust.App.Probe.Laws.{IsOrdered, IsCheapest, find_cheapest_model_lem}
use agent_proxy_rust.App.Admin.Answers.{AdminState, Call, Outside, json}
use agent_proxy_rust.App.Admin.Keys.{set_channel_api_key}
use agent_proxy_rust.App.Admin.Keys.Laws.{router_of, set_channel_api_key_revokes_not}
use agent_proxy_rust.App.Admin.Channels.{update_channel}
use agent_proxy_rust.App.Admin.Channels.Laws.{Speaks, update_channel-Speaks}
use agent_proxy_rust.App.Admin.Costs.{
  east, compute_time_range, local_seconds, CostReportQuery, cost_savings,
}
use agent_proxy_rust.App.Admin.Costs.Laws.{
  asked_for, compute_time_range_days, cost_savings_truncates,
}
use agent_proxy_rust.Storage.Costs.{total}
use agent_proxy_rust.Storage.Costs.Laws.Pages.{Lists}
use agent_proxy_rust.Cost.Record.{CostRecord}

abbrev secret : List ℕ
secret = 7 ∷ 255 ∷ []

abbrev refused_status : ℕ
refused_status = 401

abbrev fine_status : ℕ
fine_status = 200

admin_auth_middleware_lem_example :
    (get_or [] (some secret) ≡ secret
      → admin_auth_middleware secret (some secret) refused_status fine_status ≡ fine_status)
    × (get_or [] (some secret) ≢ secret
        → admin_auth_middleware secret (some secret) refused_status fine_status ≡ refused_status)
admin_auth_middleware_lem_example =
    admin_auth_middleware_lem secret (some secret) refused_status fine_status
      (omega arith, (omega arith, tt)) (omega arith, (omega arith, tt))

whole-IsOrdered : IsOrdered whole
whole-IsOrdered = record {
  le_refl = λ a. ground arith;
  le_total = λ a b h. ground arith;
  le_trans = λ a b c h k. ground arith;
}

abbrev model : Model ℕ
model = record {
  id = "m";
  provider_id = "p";
  client_name = "m";
  price_input = 3;
  price_output = 4;
  currency = "USD";
  context_window = 1000;
  created_at = "";
  channel_count = 1;
}

cheapest_found :
    find_cheapest_model whole (done (mapping "m1" "a" ∷ [])) (done (model ∷ [])) ≡ some "m-large"
unfolding find_cheapest_model cheapest
cheapest_found = refl

find_cheapest_model_lem_example :
    (p : ℕ) × IsCheapest whole whole-IsOrdered (mapping "m1" "a" ∷ []) (model ∷ []) (p, "m-large")
find_cheapest_model_lem_example =
    find_cheapest_model_lem whole whole-IsOrdered (mapping "m1" "a" ∷ []) (model ∷ [])
      cheapest_found

abbrev out : Outside ℕ
out = record {
  float = whole;
  json = record {
    prices = prices;
    parse_protocols = λ s. some (entry ∷ []);
    parse_list = λ s. some [];
    print = λ e. "";
  };
  client = λ request. status 200 5;
  json_error = λ s. "";
  print_list = λ names. "";
}

abbrev call : Call
call = record { conn = λ n. up; mapping_conn = λ id. up; now = 9; later = "soon"; instant = 9 }

abbrev loaded : ResolvedChannel ℕ
loaded = house "a" 1 (offer "m1" per_use)

abbrev state : AdminState ℕ
state = record {
  db = db;
  health_map = [];
  api_key_map = ("a", "key") ∷ [];
  compress_enabled = true;
  channels = loaded ∷ [];
}

emptied : (set_channel_api_key out call "a" "" state).1 ≡ json none
unfolding set_channel_api_key store_channel_api_key
emptied = refl

set_channel_api_key_revokes_not_example :
    let router' = router_of (state_of []) (set_channel_api_key out call "a" "" state).0 in
    (has_api_key router' "a" ≡ true) × (key_of router' loaded ≡ "key")
set_channel_api_key_revokes_not_example =
    set_channel_api_key_revokes_not out call "a" (state_of []) state loaded emptied (Memᴰ.head refl)
      refl refl

abbrev forced : ChannelPatch
forced = record {
  name = none;
  enabled = none;
  priority = none;
  monthly_quota = none;
  quota_policy = none;
  protocols = none;
  force_protocol = some "openai_chat";
}

abbrev forced_row : Channel
forced_row = record (row "a" 1) { force_protocol = some "openai_chat"; updated_at = 9 }

forced_answer : (update_channel out call "a" forced state).1 ≡ json forced_row
unfolding update_channel get_channel store_channel row_to_channel patch_channel
forced_answer = refl

update_channel-Speaks_example : Speaks out "openai_chat" "[chat]"
update_channel-Speaks_example =
    update_channel-Speaks out call "a" "openai_chat" forced state forced_answer refl

compute_time_range_days_example :
    let start = (compute_time_range 2000000 3 (some (east 480)) none).start in
    (local_seconds (east 480) start % 86400 ≡ 0) × (start ≤ 2000000) × (2000000 < start + 3 * 86400)
compute_time_range_days_example =
    compute_time_range_days 2000000 3 (east 480) none (omega arith) (omega arith)

abbrev query : CostReportQuery
query = record { project = none; days = 0; group_by = none; tz_offset = none }

cost_savings_truncates_example :
    (listed : List (CostRecord ℕ)) × Lists year
      (asked_for year engine call query)
      state.db.cost_records
      listed
    × ((cost_savings year engine call query state).1
        ≡ json (record {
          schema_saved_tokens = u64 (total (λ r. r.schema_saved_tokens) (take 100 listed));
          response_saved_tokens = u64 (total (λ r. r.response_saved_tokens) (take 100 listed));
          rtk_saved_tokens = u64 (total (λ r. r.rtk_saved_tokens) (take 100 listed));
          total_saved_tokens = u64 (total (λ r. r.tokens_saved) (take 100 listed));
        }))
cost_savings_truncates_example =
    cost_savings_truncates year engine call query state up-IsUp (λ weight rows. refl)
