-- ===== src/Router/Quota/Tests.antt =====
-- An instance of the law of the counters: two uses in one month, after one in the month before.
use agent_proxy_rust.Common.{ℕ, ◌≡◌, List, [], ◌∷◌, arith}
use agent_proxy_rust.Router.Quota.Laws.{use_all, in_month, tokens_in, record_usage-counts}

abbrev earlier : List (ℕ × ℕ)
earlier = (24314, 20) ∷ (24313, 100) ∷ []

record_usage-counts_example :
    let u = use_all 24313 ((24314, 7) ∷ earlier) in
    (u.month_key ≡ 24314)
    × (u.requests_this_month ≡ in_month 24314 ((24314, 7) ∷ earlier))
    × (u.tokens_this_month ≡ tokens_in 24314 ((24314, 7) ∷ earlier))
record_usage-counts_example = record_usage-counts 24313 24314 7 earlier (omega arith) (omega arith)
