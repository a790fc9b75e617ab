-- ===== src/Router/Select/Limits.antt =====
-- What happens to a flat fee whose quota is used up.
use agent_proxy_rust.Common.{
  ℕ, String, Option, some, true, false, [], ◌∷◌, ◌≡◌, refl, ◌∙◌, Table, lookup, insert,
  lookup-insert_self, sort_desc,
}
use agent_proxy_rust.Core.Error.{ok, err, channel_selection}
use agent_proxy_rust.Router.Billing.{ChannelBilling, flat_fee, is_flat_fee, block, Quota}
use agent_proxy_rust.Router.Quota.{QuotaUsage, is_within_quota}
use agent_proxy_rust.Router.Select.{
  Candidate, RouterState, Env, blocked, nothing, is_usable, select_channel, flat_loop, flat_fees,
  metered_ones, try_flat_fee,
}
use agent_proxy_rust.Router.Select.Loops.{has_quota, is_blocking, verdict, first_pick}
use agent_proxy_rust.Router.Select.Phases.{settle, select_channel_lem, fall_back_lem}

module _ {F : Type 0} (c : Candidate F) where
  flat_fees_one : is_flat_fee c.1.billing ≡ true → flat_fees (c ∷ []) ≡ c ∷ []
  unfolding sort_desc
  flat_fees_one flat = rw flat

  metered_ones_one : is_flat_fee c.1.billing ≡ true → metered_ones (c ∷ []) ≡ []
  unfolding sort_desc
  metered_ones_one flat = rw flat

  try_blocked :
      (month : ℕ) (usage : Table QuotaUsage) (b : ChannelBilling F) (hint : Option F)
      (quota : Option Quota) (u : QuotaUsage)
      → b ≡ flat_fee hint quota block
      → lookup c.1.mapping_id usage ≡ some u
      → is_within_quota quota u ≡ false
      → try_flat_fee month c b usage ≡ (insert c.1.mapping_id u usage, blocked)
  unfolding try_flat_fee
  try_blocked month usage b hint quota u billing counter used_up =
      rw billing (rw (counter, used_up))

  verdict_nothing :
      (env : Env) (st : RouterState F)
      → is_usable st env.now c ≡ true
      → is_blocking c.1.billing ≡ false
      → has_quota env.month st.quota_usage c c.1.billing ≡ false
      → verdict env st c ≡ nothing
  unfolding verdict
  verdict_nothing env st usable passes empty = rw (usable, empty, passes)

module _ {F : Type 0} (st : RouterState F) (c : Candidate F) (name : String) where
  -- A flat fee that falls back to metered channels is chosen even though its quota is used up,
  -- where it is the only candidate and is usable.
  pub select_channel_exceeds :
      (env : Env)
      → is_usable st env.now c ≡ true
      → is_flat_fee c.1.billing ≡ true
      → is_blocking c.1.billing ≡ false
      → has_quota env.month st.quota_usage c c.1.billing ≡ false
      → (select_channel env st (c ∷ []) name).1 ≡ ok c
  unfolding settle first_pick
  select_channel_exceeds env usable flat passes empty =
      select_channel_lem env st (c ∷ []) name
      ∙ rw (flat_fees_one c flat, verdict_nothing c env st usable passes empty)
          (rw (fall_back_lem, metered_ones_one c flat, usable))

  loop_blocks :
      (env : Env) (hint : Option F) (quota : Option Quota) (u : QuotaUsage)
      → c.1.billing ≡ flat_fee hint quota block
      → lookup c.1.mapping_id st.quota_usage ≡ some u
      → is_within_quota quota u ≡ false
      → is_usable st env.now c ≡ true
      → flat_loop env st (c ∷ []) st.quota_usage ≡ (insert c.1.mapping_id u st.quota_usage, blocked)
  unfolding flat_loop
  loop_blocks env hint quota u billing counter used_up usable = rw (
    usable,
    try_blocked c env.month st.quota_usage c.1.billing hint quota u billing counter used_up,
  )

  -- A usable flat fee that blocks refuses its model in every month, if its counter was at its limit
  -- once and it is the only candidate: the counter of an earlier month is not reset, and stays.
  pub select_channel_blocks_forever :
      (env : Env) (hint : Option F) (quota : Option Quota) (u : QuotaUsage)
      → c.1.billing ≡ flat_fee hint quota block
      → lookup c.1.mapping_id st.quota_usage ≡ some u
      → is_within_quota quota u ≡ false
      → is_usable st env.now c ≡ true
      → let (usage, result) = select_channel env st (c ∷ []) name in
        (result ≡ err (channel_selection name)) × (lookup c.1.mapping_id usage ≡ some u)
  unfolding select_channel
  select_channel_blocks_forever env hint quota u billing counter used_up usable =
      let flat : is_flat_fee c.1.billing ≡ true = rw billing in
      rw (flat_fees_one c flat, loop_blocks env hint quota u billing counter used_up usable)
        (refl, lookup-insert_self c.1.mapping_id u st.quota_usage)
