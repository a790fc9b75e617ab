-- ===== src/Router/Handler/Marks.antt =====
-- What the responses do to the health of channels.
use agent_proxy_rust.Router.Health
use agent_proxy_rust.Common.{
  ℕ, ◌+◌, String, Option, none, some, Bool, true, false, ◌≡◌, refl, inl, inr, arith, if◌then◌else◌,
  str_eq, is_blank, lookup, lookup-insert, lookup-insert_self, Table, ltb, leb, seconds, ◌==◌, ◌&&◌,
  ◌||◌, not, Option-cases, ap,
}
use agent_proxy_rust.Core.Http.{StatusClass, IsStatusClass, Json}
use agent_proxy_rust.Core.Types.{ProxyResponse, ConnectionContext, selected_name}
use agent_proxy_rust.Router.Select.{RouterState, Env, is_healthy}
use agent_proxy_rust.Router.Handler.{
  SelectedMappingInfo, on_response, mark, mark_healthy, mark_rate_limited, mark_unhealthy_immediate,
}

-- How long a response of this status keeps a channel closed: `none` is not at all.
abbrev pub closed_for : ℕ → Option ℕ
closed_for status =
    if (leb 500 status && ltb status 600) || status == 401
    then some (seconds 900)
    else if status == 429
    then some (seconds 30)
    else none

-- Whether the status says nothing of the channel.
abbrev pub is_callers_fault : ℕ → Bool
is_callers_fault status =
    leb 400 status && ltb status 500 && not (status == 401) && not (status == 429)

-- Whether the channel is healthy at `later`, after a response of this status at `now` and with
-- the health before.
abbrev pub outcome : ℕ → ℕ → ℕ → Bool → Bool
outcome now later status before = elim (closed_for status) [
  | some cooldown ↦ leb (now + cooldown) later
  | none ↦ if is_callers_fault status then before else true
]

-- `is_healthy` on the entry of a channel.
abbrev healthy_as : ℕ → Option Health.ChannelState → Bool
healthy_as now none = true
healthy_as now (some s) = Health.is_tryable_past_cooldown now s

unhealthy_state :
    (now later : ℕ) (s : Health.ChannelState)
    → healthy_as later (some (Health.mark_unhealthy now s)) ≡ leb (now + seconds 900) later
unfolding Health.mark_unhealthy Health.is_tryable_past_cooldown
unhealthy_state now later s = ground arith

limited_state :
    (now later : ℕ) (s : Health.ChannelState)
    → healthy_as later (some (Health.mark_rate_limited now s)) ≡ leb (now + seconds 30) later
unfolding Health.mark_rate_limited Health.is_tryable_past_cooldown
limited_state now later s = ground arith

unhealthy_lem :
    (now later : ℕ) (id : String) (health : Table Health.ChannelState)
    → healthy_as later (lookup id (mark_unhealthy_immediate now id health))
      ≡ leb (now + seconds 900) later
unfolding mark_unhealthy_immediate
unhealthy_lem now later id health = rw lookup-insert_self (unhealthy_state now later _)

limited_lem :
    (now later : ℕ) (id : String) (health : Table Health.ChannelState)
    → healthy_as later (lookup id (mark_rate_limited now id health)) ≡ leb (now + seconds 30) later
unfolding mark_rate_limited
limited_lem now later id health = rw lookup-insert_self (limited_state now later _)

healthy_lem :
    (later : ℕ) (id : String) (health : Table Health.ChannelState)
    → healthy_as later (lookup id (mark_healthy id health)) ≡ true
unfolding mark_healthy Health.record_success Health.is_tryable_past_cooldown
healthy_lem later id health = elim (Option-cases (lookup id health)) [
  | inl nothing_yet ↦ rw (mark_healthy, nothing_yet) (rw nothing_yet)
  | inr (s, e) ↦ rw (mark_healthy, e, lookup-insert_self)
]

unhealthy-other :
    (now : ℕ) (id other : String) (health : Table Health.ChannelState)
    → str_eq id other ≡ false
    → lookup other (mark_unhealthy_immediate now id health) ≡ lookup other health
unfolding mark_unhealthy_immediate
unhealthy-other now id other health h = simp (lookup-insert, h)

limited-other :
    (now : ℕ) (id other : String) (health : Table Health.ChannelState)
    → str_eq id other ≡ false
    → lookup other (mark_rate_limited now id health) ≡ lookup other health
unfolding mark_rate_limited
limited-other now id other health h = simp (lookup-insert, h)

healthy-other :
    (id other : String) (health : Table Health.ChannelState)
    → str_eq id other ≡ false
    → lookup other (mark_healthy id health) ≡ lookup other health
unfolding mark_healthy
healthy-other id other health h = elim (Option-cases (lookup id health)) [
  | inl nothing_yet ↦ rw (mark_healthy, nothing_yet)
  | inr (s, e) ↦ rw (mark_healthy, e) (simp (lookup-insert, h))
]

is_healthy_lem :
    {F : Type 0} (st : RouterState F) (now : ℕ) (id : String)
    → is_healthy st now id ≡ healthy_as now (lookup id st.health)
unfolding is_healthy
is_healthy_lem st now id =
    elim (lookup id st.health)
      as (λ o.
        (elim o as (λ _. Bool) [ none ↦ true | some s ↦ Health.is_tryable_past_cooldown now s ])
        ≡ healthy_as now o) [ none ↦ refl | some s ↦ refl ]

module _ (sc : StatusClass) (laws : IsStatusClass sc) where
  mark-other :
      (now status : ℕ) (id other : String) (health : Table Health.ChannelState)
      → str_eq id other ≡ false
      → lookup other (mark sc now status id health) ≡ lookup other health
  mark-other now status id other health h = ground (
    arith,
    unhealthy-other now id other health h,
    limited-other now id other health h,
    healthy-other id other health h,
  )

  mark_lem :
      (now later status : ℕ) (id : String) (health : Table Health.ChannelState)
      → healthy_as later (lookup id (mark sc now status id health))
        ≡ outcome now later status (healthy_as later (lookup id health))
  mark_lem now later status id health = ground (
    arith,
    laws.server_range status,
    laws.client_range status,
    unhealthy_lem now later id health,
    limited_lem now later id health,
    healthy_lem later id health,
  )

  module _ {F V H B : Type 0} (j : Json V B) (env : Env) (res : ProxyResponse H B)
      (ctx : ConnectionContext (SelectedMappingInfo F) V) (st : RouterState F) where
    marked :
        is_blank (selected_name ctx) ≡ false
        → (on_response j sc env res ctx st).0.health
          ≡ mark sc env.now res.status (selected_name ctx) st.health
    unfolding on_response
    marked named = rw named

    pub on_response-health :
        (later : ℕ)
        → is_blank (selected_name ctx) ≡ false
        → (is_healthy (on_response j sc env res ctx st).0 later (selected_name ctx)
            ≡ outcome env.now later res.status (is_healthy st later (selected_name ctx)))
          × ((other : String)
              → str_eq (selected_name ctx) other ≡ false
              → is_healthy (on_response j sc env res ctx st).0 later other
                ≡ is_healthy st later other)
    on_response-health later named =
        rw (is_healthy_lem, is_healthy_lem, marked named)
          (
            mark_lem env.now later res.status (selected_name ctx) st.health,
            λ other h.
                rw (is_healthy_lem, is_healthy_lem, marked named)
                  (ap (healthy_as later)
                    (mark-other env.now res.status (selected_name ctx) other st.health h)),
          )
