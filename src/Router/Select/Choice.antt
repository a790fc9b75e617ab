-- ===== src/Router/Select/Choice.antt =====
-- What `select_channel` promises: a channel that can serve, flat fees first, by priority.
use agent_proxy_rust.Router.Quota.{QuotaUsage}
use mathlib.Core.List.{Memᴰ}
use agent_proxy_rust.Common.{
  ℕ, String, none, some, Bool, true, false, not, List, ◌≡◌, refl, sym, ◌∙◌, ◌≤◌, ◌⊎◌, inl, inr,
  arith, find, find-none, find-Falls, sort_desc-Falls, Option-cases, find_sound, Table, ◌≢◌,
}
use agent_proxy_rust.Core.Error.{Result, ok, err, channel_selection}
use agent_proxy_rust.Router.Billing.{ChannelBilling, metered, flat_fee, is_flat_fee}
use agent_proxy_rust.Router.Select.{
  Candidate, RouterState, Env, Pick, chosen, blocked, nothing, is_usable, flat_fees, metered_ones,
  priority_of, select_channel, fall_back,
}
use agent_proxy_rust.Router.Select.Loops.{
  has_quota, is_blocking, first_pick, first_pick-chosen, first_pick-nothing, first_pick-blocked,
}
use agent_proxy_rust.Router.Select.Phases.{
  settle, select_channel_lem, flat_fees-mem, mem-flat_fees, metered_ones-mem, mem-metered_ones,
  verdict-chosen, chosen-verdict, verdict-blocked, fall_back_lem, fall_back-ok,
}

true≢false : true ≢ false
true≢false = cc

has_quota-flat :
    {F : Type 0} (month : ℕ) (usage : Table QuotaUsage) (c : Candidate F) (b : ChannelBilling F)
    → has_quota month usage c b ≡ true
    → is_flat_fee b ≡ true
has_quota-flat month usage c (metered p) h = h
has_quota-flat month usage c (flat_fee hint quota on_exhausted) h = refl

module _ {F : Type 0} (env : Env) (st : RouterState F) (cs : List (Candidate F))
    (name : String) where
  -- The pick of the first phase on this list.
  pick : Pick F
  pick = first_pick env st (flat_fees cs)

  settled :
      {r : Result (Candidate F)}
      → (select_channel env st cs name).1 ≡ r
      → settle env st pick cs name ≡ r
  unfolding pick
  settled h = sym (select_channel_lem env st cs name) ∙ h

  pick-cases : ((c : Candidate F) × (pick ≡ chosen c)) ⊎ ((pick ≡ blocked) ⊎ (pick ≡ nothing))
  pick-cases =
      elim pick as (λ p. ((c : Candidate F) × (p ≡ chosen c)) ⊎ ((p ≡ blocked) ⊎ (p ≡ nothing))) [
        | chosen c ↦ inl (c, refl)
        | blocked ↦ inr (inl refl)
        | nothing ↦ inr (inr refl)
      ]

  -- What is chosen is one of the candidates, has an API key, and is healthy or past its cooldown.
  pub select_channel_sound :
      (c : Candidate F)
      → (select_channel env st cs name).1 ≡ ok c
      → Memᴰ c cs × (is_usable st env.now c ≡ true)
  unfolding settle pick
  select_channel_sound c h = elim pick-cases [
    | inl (d, e) ↦
        let same : ok d ≡ ok c = rw e at (settled h) in
        let it : d ≡ c = cc in
        let (m, own, most) = first_pick-chosen env st (flat_fees cs) e in
        (rw (← it) (flat_fees-mem env st cs m).0, rw (← it) (verdict-chosen env st d own).0)
    | inr (inl e) ↦ let stop : err (channel_selection name) ≡ ok c = rw e at (settled h) in cc
    | inr (inr e) ↦ let (m, u, how) = fall_back-ok env st cs name (rw e at (settled h)) in (m, u)
  ]

  -- If some flat fee with quota left has a key and is healthy, only such a one is chosen, and none of
  -- them has a greater priority than the chosen one.
  pub select_channel_flat_first :
      (c d : Candidate F)
      → (select_channel env st cs name).1 ≡ ok c
      → Memᴰ d cs
      → is_usable st env.now d ≡ true
      → has_quota env.month st.quota_usage d d.1.billing ≡ true
      → (has_quota env.month st.quota_usage c c.1.billing ≡ true) × (d.0.priority ≤ c.0.priority)
  unfolding settle pick
  select_channel_flat_first c d h m u q = elim pick-cases [
    | inl (e, found) ↦
        let same : ok e ≡ ok c = rw found at (settled h) in
        let it : e ≡ c = cc in
        let (m', own, most) = first_pick-chosen env st (flat_fees cs) found in
        rw (← it) (
          (verdict-chosen env st e own).1,
          most (sort_desc-Falls priority_of _) d
              (mem-flat_fees env st cs m (has_quota-flat env.month st.quota_usage d d.1.billing q))
              (chosen-verdict env st d u q),
        )
    | inr (inl found) ↦
        let stop : err (channel_selection name) ≡ ok c = rw found at (settled h) in cc
    | inr (inr found) ↦
        let skipped =
          first_pick-nothing env st (flat_fees cs) found
            (mem-flat_fees env st cs m (has_quota-flat env.month st.quota_usage d d.1.billing q)) in
        let clash : chosen d ≡ nothing = sym (chosen-verdict env st d u q) ∙ skipped in cc
  ]

  -- If no usable flat fee has quota left, a candidate is chosen, and some metered candidate is usable,
  -- then the chosen one is metered, and no usable metered one has a greater priority.
  pub select_channel_metered_next :
      (c d : Candidate F)
      → (select_channel env st cs name).1 ≡ ok c
      → ((f : Candidate F)
          → Memᴰ f cs
          → is_usable st env.now f ≡ true
          → has_quota env.month st.quota_usage f f.1.billing ≡ false)
      → Memᴰ d cs
      → is_flat_fee d.1.billing ≡ false
      → is_usable st env.now d ≡ true
      → (is_flat_fee c.1.billing ≡ false) × (d.0.priority ≤ c.0.priority)
  unfolding settle pick
  select_channel_metered_next c d h out m flat u = elim pick-cases [
    | inl (e, found) ↦
        let same : ok e ≡ ok c = rw found at (settled h) in
        let it : e ≡ c = cc in
        let (m', own, most) = first_pick-chosen env st (flat_fees cs) found in
        let (usable, left) = verdict-chosen env st e own in
        absurd (true≢false (sym left ∙ out e (flat_fees-mem env st cs m').0 usable))
    | inr (inl found) ↦
        let stop : err (channel_selection name) ≡ ok c = rw found at (settled h) in cc
    | inr (inr found) ↦ first_metered (fall_back-ok env st cs name (rw found at (settled h))).2
  ]
    where
      test : Candidate F → Bool
      test = is_usable st env.now

      is_false : (b : Bool) → not b ≡ true → b ≡ false
      is_false b e = ground arith

      mine : Memᴰ d (metered_ones cs)
      mine = mem-metered_ones env st cs m (rw flat)

      first_metered :
          (find test (metered_ones cs) ≡ some c) ⊎ (find test (metered_ones cs) ≡ none)
          → (is_flat_fee c.1.billing ≡ false) × (d.0.priority ≤ c.0.priority)
      first_metered (inl found) = (
        is_false (is_flat_fee c.1.billing)
            (metered_ones-mem env st cs (find_sound test (metered_ones cs) found).0).1,
        find-Falls priority_of test (metered_ones cs) (sort_desc-Falls priority_of _) found mine u,
      )
      first_metered (inr nobody) =
          absurd (true≢false (sym u ∙ find-none test (metered_ones cs) nobody mine))

  -- If some candidate has a key and is healthy, and no such flat fee that blocks is out of quota, a
  -- candidate is chosen.
  pub select_channel_total :
      (d : Candidate F)
      → Memᴰ d cs
      → is_usable st env.now d ≡ true
      → ((f : Candidate F)
          → Memᴰ f cs
          → is_usable st env.now f ≡ true
          → is_blocking f.1.billing ≡ true
          → has_quota env.month st.quota_usage f f.1.billing ≡ true)
      → (c : Candidate F) × ((select_channel env st cs name).1 ≡ ok c)
  unfolding settle pick
  select_channel_total d m u free = elim pick-cases [
    | inl (e, found) ↦ (e, select_channel_lem env st cs name ∙ rw found)
    | inr (inl found) ↦
        let (b, m', own) = first_pick-blocked env st (flat_fees cs) found in
        let (usable, empty, blocks) = verdict-blocked env st b own in
        absurd (true≢false (sym (free b (flat_fees-mem env st cs m').0 usable blocks) ∙ empty))
    | inr (inr found) ↦
        let (c, e) =
          later (Option-cases (find test (metered_ones cs))) (Option-cases (find test cs)) in
        (c, select_channel_lem env st cs name ∙ rw found e)
  ]
    where
      test : Candidate F → Bool
      test = is_usable st env.now

      later :
          (find test (metered_ones cs) ≡ none)
            ⊎ ((c : Candidate F) × (find test (metered_ones cs) ≡ some c))
          → (find test cs ≡ none) ⊎ ((c : Candidate F) × (find test cs ≡ some c))
          → (c : Candidate F) × (fall_back env st (metered_ones cs) cs name ≡ ok c)
      later (inr (c, e)) o = (c, rw (fall_back_lem, e))
      later (inl e) (inr (c, e')) = (c, rw (fall_back_lem, e, e'))
      later (inl e) (inl e') = absurd (true≢false (sym u ∙ find-none test cs e' m))
