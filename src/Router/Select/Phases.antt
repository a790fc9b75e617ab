-- ===== src/Router/Select/Phases.antt =====
-- `select_channel` by the pick of its first loop, and what the later loops find.
use mathlib.Core.List.{Memᴰ}
use agent_proxy_rust.Common.{
  String, none, some, true, false, not, List, ◌≡◌, refl, ◌∙◌, ◌⊎◌, inl, inr, arith, Table,
  Option-cases, find, find_sound, mem-keep, keep-mem, sort_desc-mem, mem-sort_desc, or_else, ap,
}
use agent_proxy_rust.Core.Error.{Result, ok, err, channel_selection, ok_or}
use agent_proxy_rust.Router.Billing.{is_flat_fee}
use agent_proxy_rust.Router.Quota.{QuotaUsage}
use agent_proxy_rust.Router.Select.{
  Candidate, RouterState, Env, Pick, chosen, blocked, nothing, is_usable, is_healthy,
  is_tryable_channel, flat_loop, metered_loop, past_cooldown_loop, fall_back, flat_fees,
  metered_ones, priority_of, conclude, select_channel,
}
use agent_proxy_rust.Router.Select.Loops.{
  has_quota, is_blocking, verdict, first_pick, flat_loop-first_pick,
}

module _ {F : Type 0} (env : Env) (st : RouterState F) where
  -- The choice, by the pick of the first phase.
  unfoldable pub settle : Pick F → List (Candidate F) → String → Result (Candidate F)
  settle (chosen c) cs name = ok c
  settle blocked cs name = err (channel_selection name)
  settle nothing cs name = fall_back env st (metered_ones cs) cs name

  conclude-settle :
      (o : Table QuotaUsage × Pick F) (cs : List (Candidate F)) (name : String)
      → (conclude o (fall_back env st (metered_ones cs) cs name) name).1 ≡ settle o.1 cs name
  unfolding settle
  conclude-settle (usage, chosen c) cs name = refl
  conclude-settle (usage, blocked) cs name = refl
  conclude-settle (usage, nothing) cs name = refl

  pub select_channel_lem :
      (cs : List (Candidate F)) (name : String)
      → (select_channel env st cs name).1 ≡ settle (first_pick env st (flat_fees cs)) cs name
  unfolding select_channel
  select_channel_lem cs name =
      conclude-settle (flat_loop env st (flat_fees cs) st.quota_usage) cs name
      ∙ ap (λ p. settle p cs name)
          (flat_loop-first_pick env st (flat_fees cs) st.quota_usage (λ id. refl))

  pub flat_fees-mem :
      (cs : List (Candidate F)) {c : Candidate F}
      → Memᴰ c (flat_fees cs)
      → Memᴰ c cs × (is_flat_fee c.1.billing ≡ true)
  flat_fees-mem cs m = mem-keep (λ d. is_flat_fee d.1.billing) cs (sort_desc-mem priority_of _ m)

  pub mem-flat_fees :
      (cs : List (Candidate F)) {c : Candidate F}
      → Memᴰ c cs
      → is_flat_fee c.1.billing ≡ true
      → Memᴰ c (flat_fees cs)
  mem-flat_fees cs m h =
      mem-sort_desc priority_of _ (keep-mem (λ d. is_flat_fee d.1.billing) cs m h)

  pub metered_ones-mem :
      (cs : List (Candidate F)) {c : Candidate F}
      → Memᴰ c (metered_ones cs)
      → Memᴰ c cs × (not (is_flat_fee c.1.billing) ≡ true)
  metered_ones-mem cs m =
      mem-keep (λ d. not (is_flat_fee d.1.billing)) cs (sort_desc-mem priority_of _ m)

  pub mem-metered_ones :
      (cs : List (Candidate F)) {c : Candidate F}
      → Memᴰ c cs
      → not (is_flat_fee c.1.billing) ≡ true
      → Memᴰ c (metered_ones cs)
  mem-metered_ones cs m h =
      mem-sort_desc priority_of _ (keep-mem (λ d. not (is_flat_fee d.1.billing)) cs m h)

  -- The three verdicts.
  pub verdict-chosen :
      (c : Candidate F)
      → verdict env st c ≡ chosen c
      → (is_usable st env.now c ≡ true) × (has_quota env.month st.quota_usage c c.1.billing ≡ true)
  unfolding verdict
  verdict-chosen (ch, m) h = ground arith

  pub chosen-verdict :
      (c : Candidate F)
      → is_usable st env.now c ≡ true
      → has_quota env.month st.quota_usage c c.1.billing ≡ true
      → verdict env st c ≡ chosen c
  unfolding verdict
  chosen-verdict (ch, m) u q = rw (u, q)

  pub verdict-blocked :
      (c : Candidate F)
      → verdict env st c ≡ blocked
      → (is_usable st env.now c ≡ true)
        × (has_quota env.month st.quota_usage c c.1.billing ≡ false)
        × (is_blocking c.1.billing ≡ true)
  unfolding verdict
  verdict-blocked (ch, m) h = ground arith

  -- The last loop tests what the first two test.
  past_cooldown_loop_lem :
      (cs : List (Candidate F)) → past_cooldown_loop env st cs ≡ find (is_usable st env.now) cs
  unfolding past_cooldown_loop is_tryable_channel is_healthy
  past_cooldown_loop_lem cs = refl

  pub fall_back_lem :
      (cs : List (Candidate F)) (name : String)
      → fall_back env st (metered_ones cs) cs name
        ≡ ok_or (channel_selection name) (
            or_else
              (find (is_usable st env.now) (metered_ones cs))
              (find (is_usable st env.now) cs))
  unfolding fall_back metered_loop
  fall_back_lem cs name =
      ap
        (λ o.
          ok_or (channel_selection name)
            (or_else (find (is_usable st env.now) (metered_ones cs)) o))
        (past_cooldown_loop_lem cs)

  pub fall_back-ok :
      (cs : List (Candidate F)) (name : String) {c : Candidate F}
      → fall_back env st (metered_ones cs) cs name ≡ ok c
      → Memᴰ c cs
        × (is_usable st env.now c ≡ true)
        × ((find (is_usable st env.now) (metered_ones cs) ≡ some c)
            ⊎ (find (is_usable st env.now) (metered_ones cs) ≡ none))
  fall_back-ok cs name {c} h = elim (Option-cases (find (is_usable st env.now) (metered_ones cs))) [
    | inl nobody ↦ elim (Option-cases (find (is_usable st env.now) cs)) [
      | inl nobody' ↦
          let stop : err (channel_selection name) ≡ ok c =
            rw (nobody, nobody') at (rw fall_back_lem at h) in
          cc
      | inr (d, found) ↦
          let same : ok d ≡ ok c = rw (nobody, found) at (rw fall_back_lem at h) in
          let it : d ≡ c = cc in
          let (m, u) = find_sound (is_usable st env.now) cs found in
          (rw (← it) m, rw (← it) u, inr nobody)
    ]
    | inr (d, found) ↦
        let same : ok d ≡ ok c = rw found at (rw fall_back_lem at h) in
        let it : d ≡ c = cc in
        let (m, u) = find_sound (is_usable st env.now) (metered_ones cs) found in
        (rw (← it) (metered_ones-mem cs m).0, rw (← it) u, inl (rw (← it) found))
  ]
