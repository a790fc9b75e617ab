-- ===== src/Router/Select/Loops.antt =====
-- The flat-fee loop without its effect on the usage map, and what its ending says of the list.
use agent_proxy_rust.Common.{
  ℕ, String, Bool, true, false, List, [], ◌∷◌, ◌≡◌, refl, sym, ◌∙◌, ◌≤◌, ◌⊎◌, inl, inr, arith,
  Table, insert, lookup-insert, eq_iff, if◌then◌else◌, Bool-cases, Falls, All-mem, All,
}
use mathlib.Core.List.{Memᴰ}
use agent_proxy_rust.Router.Billing.{ChannelBilling, metered, flat_fee, fallback_to_metered, block}
use agent_proxy_rust.Router.Quota.{QuotaUsage, is_within_quota}
use agent_proxy_rust.Router.Select.{
  ResolvedChannel, ResolvedMapping, Candidate, RouterState, Env, Pick, chosen, blocked, nothing,
  usage_of, is_usable, try_flat_fee, flat_loop, or_continue, priority_of,
}

-- A flat fee with quota left.
abbrev pub has_quota : {F : Type 0} → ℕ → Table QuotaUsage → Candidate F → ChannelBilling F → Bool
has_quota month usage c (metered p) = false
has_quota month usage c (flat_fee hint quota on_exhausted) =
    is_within_quota quota (usage_of month c.1.mapping_id usage)

-- A flat fee that blocks when its quota is used up.
abbrev pub is_blocking : {F : Type 0} → ChannelBilling F → Bool
is_blocking (metered p) = false
is_blocking (flat_fee hint quota block) = true
is_blocking (flat_fee hint quota fallback_to_metered) = false

-- Reading an entry of the usage map changes no entry.
usage_of-insert :
    (month : ℕ) (i j : String) (usage : Table QuotaUsage)
    → usage_of month j (insert i (usage_of month i usage) usage) ≡ usage_of month j usage
usage_of-insert month i j usage =
    ground (arith, eq_iff i j, lookup-insert i j (usage_of month i usage) usage)

abbrev pub or_next : {F : Type 0} → Pick F → Pick F → Pick F
or_next nothing q = q
or_next (chosen c) q = chosen c
or_next blocked q = blocked

module _ {F : Type 0} (env : Env) (st : RouterState F) where
  -- What the loop makes of one candidate, with the usage map of the state.
  unfoldable pub verdict : Candidate F → Pick F
  verdict (ch, m) =
      if is_usable st env.now (ch, m)
      then if has_quota env.month st.quota_usage (ch, m) m.billing
        then chosen (ch, m)
        else if is_blocking m.billing
        then blocked
        else nothing
      else nothing

  unfoldable pub first_pick : List (Candidate F) → Pick F
  first_pick [] = nothing
  first_pick (c ∷ cs) = or_next (verdict c) (first_pick cs)

  -- The usage map reads as in the state.
  abbrev ReadsAs : Table QuotaUsage → Type 0
  ReadsAs usage = (id : String) → usage_of env.month id usage ≡ usage_of env.month id st.quota_usage

  try_flat_fee-verdict :
      (ch : ResolvedChannel F) (m : ResolvedMapping F) (billing : ChannelBilling F)
      (usage : Table QuotaUsage)
      → ReadsAs usage
      → (ReadsAs (try_flat_fee env.month (ch, m) billing usage).0)
        × ((try_flat_fee env.month (ch, m) billing usage).1 ≡ (
            if has_quota env.month st.quota_usage (ch, m) billing
            then chosen (ch, m)
            else if is_blocking billing
            then blocked
            else nothing))
  unfolding try_flat_fee
  try_flat_fee-verdict ch m (metered p) usage h = (h, refl)
  try_flat_fee-verdict ch m (flat_fee hint quota block) usage h =
      (λ id. usage_of-insert env.month m.mapping_id id usage ∙ h id, rw (h m.mapping_id) refl)
  try_flat_fee-verdict ch m (flat_fee hint quota fallback_to_metered) usage h =
      (λ id. usage_of-insert env.month m.mapping_id id usage ∙ h id, rw (h m.mapping_id) refl)

  Pick-cases : (p : Pick F) → ((c : Candidate F) × (p ≡ chosen c)) ⊎ ((p ≡ blocked) ⊎ (p ≡ nothing))
  Pick-cases (chosen c) = inl (c, refl)
  Pick-cases blocked = inr (inl refl)
  Pick-cases nothing = inr (inr refl)

  or_next-nothing : (p q : Pick F) → or_next p q ≡ nothing → (p ≡ nothing) × (q ≡ nothing)
  or_next-nothing nothing q h = (refl, h)
  or_next-nothing (chosen c) q h = cc
  or_next-nothing blocked q h = cc

  verdict_self : (c d : Candidate F) → verdict c ≡ chosen d → c ≡ d
  unfolding verdict
  verdict_self (ch, m) d h = ground arith

  -- The body of the loop at one candidate.
  body-verdict :
      (ch : ResolvedChannel F) (m : ResolvedMapping F) (usage : Table QuotaUsage)
      → ReadsAs usage
      → let tried : Table QuotaUsage × Pick F =
          if is_usable st env.now (ch, m)
          then try_flat_fee env.month (ch, m) m.billing usage
          else (usage, nothing) in
        ReadsAs tried.0 × (tried.1 ≡ verdict (ch, m))
  unfolding verdict
  body-verdict ch m usage h = elim (Bool-cases (is_usable st env.now (ch, m))) [
    | inl usable ↦ rw usable (try_flat_fee-verdict ch m m.billing usage h)
    | inr skipped ↦ rw skipped (h, refl)
  ]

  -- One round of the loop, after its body.
  round :
      (tried : Table QuotaUsage × Pick F) (p : Pick F) (cs : List (Candidate F))
      → tried.1 ≡ p
      → ((usage : Table QuotaUsage) → ReadsAs usage → (flat_loop env st cs usage).1 ≡ first_pick cs)
      → ReadsAs tried.0
      → (or_continue tried (flat_loop env st cs)).1 ≡ or_next p (first_pick cs)
  round (usage, chosen d) p cs e ih h = rw (← e)
  round (usage, blocked) p cs e ih h = rw (← e)
  round (usage, nothing) p cs e ih h = rw (← e) (ih usage h)

  pub flat_loop-first_pick :
      (cs : List (Candidate F)) (usage : Table QuotaUsage)
      → ReadsAs usage
      → (flat_loop env st cs usage).1 ≡ first_pick cs
  unfolding flat_loop first_pick
  flat_loop-first_pick [] usage h = refl
  flat_loop-first_pick ((ch, m) ∷ cs) usage h =
      let (reads, same) = body-verdict ch m usage h in
      round _ (verdict (ch, m)) cs same (flat_loop-first_pick cs) reads

  abbrev pub Bounded : List (Candidate F) → Candidate F → Type 0
  Bounded cs c =
      (d : Candidate F) → Memᴰ d cs → verdict d ≡ chosen d → priority_of d ≤ priority_of c

  Bounded-here :
      (c : Candidate F) (cs : List (Candidate F))
      → All (λ y. priority_of y ≤ priority_of c) cs
      → Bounded (c ∷ cs) c
  Bounded-here c cs a d (Memᴰ.head e) v = rw e (omega arith)
  Bounded-here c cs a d (Memᴰ.tail m) v = All-mem (λ y. priority_of y ≤ priority_of c) cs a m

  Bounded-skip :
      (b c : Candidate F) (cs : List (Candidate F))
      → verdict b ≡ nothing
      → Bounded cs c
      → Bounded (b ∷ cs) c
  Bounded-skip b c cs skip h d (Memᴰ.head e) v = cc
  Bounded-skip b c cs skip h d (Memᴰ.tail m) v = h d m v

  -- The loop ends with a candidate of the list that has a verdict of its own; if the priorities
  -- fall, no other that could be chosen has a greater one.
  pub first_pick-chosen :
      (cs : List (Candidate F)) {c : Candidate F}
      → first_pick cs ≡ chosen c
      → Memᴰ c cs × (verdict c ≡ chosen c) × (Falls priority_of cs → Bounded cs c)
  unfolding first_pick
  first_pick-chosen [] h = cc
  first_pick-chosen (d ∷ cs) {c} h = elim (Pick-cases (verdict d)) [
    | inl (e, v) ↦
        let same : d ≡ e = verdict_self d e v in
        let picked : chosen e ≡ chosen c = rw (v, first_pick) at h in
        let it : d ≡ c = cc in (Memᴰ.head (sym it), cc, λ f. rw (← it) (Bounded-here d cs f.0))
    | inr (inl v) ↦ let stop : blocked ≡ chosen c = rw (v, first_pick) at h in cc
    | inr (inr v) ↦
        let (m, own, most) = first_pick-chosen cs (rw (v, first_pick) at h) in
        (Memᴰ.tail m, own, λ f. Bounded-skip d c cs v (most f.1))
  ]

  pub first_pick-nothing :
      (cs : List (Candidate F)) {d : Candidate F}
      → first_pick cs ≡ nothing
      → Memᴰ d cs
      → verdict d ≡ nothing
  unfolding first_pick
  first_pick-nothing [] h m = elim m [ ]
  first_pick-nothing (c ∷ cs) h (Memᴰ.head e) =
      rw e (or_next-nothing (verdict c) (first_pick cs) h).0
  first_pick-nothing (c ∷ cs) h (Memᴰ.tail m) =
      first_pick-nothing cs (or_next-nothing (verdict c) (first_pick cs) h).1 m

  pub first_pick-blocked :
      (cs : List (Candidate F))
      → first_pick cs ≡ blocked
      → (d : Candidate F) × Memᴰ d cs × (verdict d ≡ blocked)
  unfolding first_pick
  first_pick-blocked [] h = cc
  first_pick-blocked (c ∷ cs) h = elim (Pick-cases (verdict c)) [
    | inl (e, v) ↦ let stop : chosen e ≡ blocked = rw (v, first_pick) at h in cc
    | inr (inl v) ↦ (c, Memᴰ.head refl, v)
    | inr (inr v) ↦
        let (d, m, w) = first_pick-blocked cs (rw (v, first_pick) at h) in (d, Memᴰ.tail m, w)
  ]
