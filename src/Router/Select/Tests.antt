-- ===== src/Router/Select/Tests.antt =====
-- Instances of what `select_channel` promises.
use mathlib.Core.List.{Memᴰ}
use agent_proxy_rust.Common.{
  ℕ, none, some, true, false, List, [], ◌∷◌, ◌≡◌, refl, ◌↔◌, ◌≤◌, lookup, insert, sort_desc,
}
use agent_proxy_rust.Core.Error.{ok, err, channel_selection}
use agent_proxy_rust.Router.Billing.{max_requests, fallback_to_metered, block}
use agent_proxy_rust.Router.Quota.{is_within_quota}
use agent_proxy_rust.Router.Select.{
  Candidate, RouterState, select_channel, find_candidates, is_usable, flat_loop, fall_back,
  try_flat_fee, metered_loop, past_cooldown_loop, has_api_key, is_healthy, is_tryable_channel,
}
use agent_proxy_rust.Router.Select.Loops.{has_quota, is_blocking}
use agent_proxy_rust.Router.Select.Candidates.{Offers, find_candidates_iff}
use agent_proxy_rust.Router.Select.Choice.{
  select_channel_sound, select_channel_flat_first, select_channel_total,
}
use agent_proxy_rust.Router.Select.Limits.{select_channel_exceeds, select_channel_blocks_forever}
use agent_proxy_rust.Router.Samples.{flat, spent, paid, used, state_of, env}

abbrev cs : List (Candidate ℕ)
cs = spent fallback_to_metered ∷ paid ∷ flat ∷ []

abbrev st : RouterState ℕ
st = state_of (flat.0 ∷ paid.0 ∷ [])

find_candidates_iff_example :
    Memᴰ flat (find_candidates (paid.0 ∷ flat.0 ∷ []) "m") ↔ Offers (paid.0 ∷ flat.0 ∷ []) "m" flat
find_candidates_iff_example = find_candidates_iff (paid.0 ∷ flat.0 ∷ []) "m" flat

choice : (select_channel env st cs "m").1 ≡ ok flat
unfolding select_channel flat_loop try_flat_fee lookup insert fall_back metered_loop
    past_cooldown_loop has_api_key is_healthy is_tryable_channel is_within_quota sort_desc
choice = refl

select_channel_sound_example : Memᴰ flat cs × (is_usable st env.now flat ≡ true)
select_channel_sound_example = select_channel_sound env st cs "m" flat choice

usable_flat : is_usable st env.now flat ≡ true
unfolding has_api_key is_healthy lookup
usable_flat = refl

quota_flat : has_quota env.month st.quota_usage flat flat.1.billing ≡ true
unfolding is_within_quota lookup
quota_flat = refl

select_channel_flat_first_example :
    (has_quota env.month st.quota_usage flat flat.1.billing ≡ true) × (1 ≤ 1)
select_channel_flat_first_example =
    select_channel_flat_first env st cs "m" flat flat choice
      (Memᴰ.tail (Memᴰ.tail (Memᴰ.head refl))) usable_flat quota_flat

abbrev two : List (Candidate ℕ)
two = spent fallback_to_metered ∷ paid ∷ []

second : (select_channel env st two "m").1 ≡ ok paid
unfolding select_channel flat_loop try_flat_fee lookup insert fall_back metered_loop
    past_cooldown_loop has_api_key is_healthy is_tryable_channel is_within_quota sort_desc
second = refl

usable_paid : is_usable st env.now paid ≡ true
unfolding has_api_key is_healthy lookup
usable_paid = refl

out_of_quota :
    (f : Candidate ℕ)
    → Memᴰ f two
    → is_usable st env.now f ≡ true
    → has_quota env.month st.quota_usage f f.1.billing ≡ false
unfolding is_within_quota lookup
out_of_quota f (Memᴰ.head e) u = rw e
out_of_quota f (Memᴰ.tail (Memᴰ.head e)) u = rw e
out_of_quota f (Memᴰ.tail (Memᴰ.tail none_left)) u = elim none_left [ ]

none_blocks :
    (f : Candidate ℕ)
    → Memᴰ f two
    → is_usable st env.now f ≡ true
    → is_blocking f.1.billing ≡ true
    → has_quota env.month st.quota_usage f f.1.billing ≡ true
none_blocks f (Memᴰ.head e) u b = cc (rw e at b)
none_blocks f (Memᴰ.tail (Memᴰ.head e)) u b = cc (rw e at b)
none_blocks f (Memᴰ.tail (Memᴰ.tail none_left)) u b = elim none_left [ ]

select_channel_total_example : (c : Candidate ℕ) × ((select_channel env st two "m").1 ≡ ok c)
select_channel_total_example =
    select_channel_total env st two "m" paid (Memᴰ.tail (Memᴰ.head refl)) usable_paid none_blocks

usable_spent : is_usable st env.now (spent block) ≡ true
unfolding has_api_key is_healthy lookup
usable_spent = refl

spent_quota :
    has_quota env.month st.quota_usage
      (spent fallback_to_metered)
      (spent fallback_to_metered).1.billing
    ≡ false
unfolding is_within_quota lookup
spent_quota = refl

select_channel_exceeds_example :
    (select_channel env st (spent fallback_to_metered ∷ []) "m").1 ≡ ok (spent fallback_to_metered)
select_channel_exceeds_example =
    select_channel_exceeds st (spent fallback_to_metered) "m" env usable_spent refl refl spent_quota

spent_now : is_within_quota (some (max_requests 10)) used ≡ false
unfolding is_within_quota
spent_now = refl

counted : lookup "spent" st.quota_usage ≡ some used
unfolding lookup
counted = refl

select_channel_blocks_forever_example :
    let (usage, result) = select_channel env st (spent block ∷ []) "m" in
    (result ≡ err (channel_selection "m")) × (lookup "spent" usage ≡ some used)
select_channel_blocks_forever_example =
    select_channel_blocks_forever st (spent block) "m" env none (some (max_requests 10)) used refl
      counted spent_now usable_spent
