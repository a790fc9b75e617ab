-- ===== src/Router/Select.antt =====
-- The state of `ModelRouterMiddleware` in crates/model-router/src/lib.rs and its choice of a
-- channel. `Env` is what the clock shows: the instant and the month key. A secret is its text.
pub mod Loops
pub mod Phases
pub mod Choice
pub mod Candidates
pub mod Limits
mod Tests
use agent_proxy_rust.Common.{
  ℕ, String, Option, none, some, Bool, true, false, not, ◌&&◌, List, [], ◌∷◌, ◌++◌, map, keep,
  if◌then◌else◌, str_eq, is_blank, Table, lookup, insert, get_or, any, sort_desc, find, or_else,
}
use agent_proxy_rust.Core.Error.{Result, ok, err, channel_selection, ok_or}
use agent_proxy_rust.Router.Billing.{
  ChannelBilling, metered, flat_fee, ExhaustedAction, fallback_to_metered, block, Quota,
  is_flat_fee,
}
use agent_proxy_rust.Router.Quota.{QuotaUsage, new_usage, is_within_quota}
use agent_proxy_rust.Router.Health.{ChannelState, is_tryable_past_cooldown}
use agent_proxy_rust.Router.Protocol.{ProtocolEntry}

pub record ResolvedMapping (F : Type 0) : Type 0 where
  pub mapping_id : String
  pub client_name : String
  pub upstream_name : String
  pub billing : ChannelBilling F
  pub allowed_protocols : List String

pub record ResolvedChannel (F : Type 0) : Type 0 where
  pub channel_id : String
  pub channel_name : String
  pub api_key : String
  pub protocols : List ProtocolEntry
  pub enabled : Bool
  pub force_protocol : Option String
  pub priority : ℕ
  pub mappings : List (ResolvedMapping F)

-- A channel with one of its mappings.
abbrev pub Candidate : Type 0 → Type 0
Candidate F = ResolvedChannel F × ResolvedMapping F

pub record RouterState (F : Type 0) : Type 0 where
  pub channels : List (ResolvedChannel F)
  pub health : Table ChannelState
  pub quota_usage : Table QuotaUsage
  pub channel_api_keys : Table String

-- How a loop over channels ends.
pub data Pick (F : Type 0) : Type 0 where
  chosen : Candidate F → Pick F
  blocked : Pick F
  nothing : Pick F

pub record Env : Type 0 where
  pub now : ℕ
  pub month : ℕ

-- `quota_usage.entry(id).or_default()`, as a value.
abbrev pub usage_of : ℕ → String → Table QuotaUsage → QuotaUsage
usage_of month id usage = get_or (new_usage month) (lookup id usage)

module _ {F : Type 0} where
  -- The mappings of a channel for a model.
  abbrev pub offers : String → ResolvedChannel F → List (Candidate F)
  offers client_name ch =
      map (λ m. (ch, m)) (keep (λ m. str_eq m.client_name client_name) ch.mappings)

  unfoldable pub find_candidates : List (ResolvedChannel F) → String → List (Candidate F)
  find_candidates [] client_name = []
  find_candidates (ch ∷ channels) client_name =
      let rest = find_candidates channels client_name in
      if not ch.enabled then rest else offers client_name ch ++ rest

  unfoldable pub has_api_key : RouterState F → String → Bool
  has_api_key st channel_id = elim (lookup channel_id st.channel_api_keys) [
    | some key ↦ not (is_blank key)
    | none ↦ any (λ ch. str_eq ch.channel_id channel_id && not (is_blank ch.api_key)) st.channels
  ]

  unfoldable pub is_healthy : RouterState F → ℕ → String → Bool
  is_healthy st now channel_id = elim (lookup channel_id st.health) [
    | none ↦ true
    | some s ↦ is_tryable_past_cooldown now s
  ]

  unfoldable pub is_tryable_channel : RouterState F → ℕ → String → Bool
  is_tryable_channel st now channel_id = elim (lookup channel_id st.health) [
    | none ↦ true
    | some s ↦ is_tryable_past_cooldown now s
  ]

  -- What the body of the flat-fee loop says of a candidate with a key and in good health, by its
  -- billing: `nothing` is `continue`. The first part is the usage map after the entry is read.
  unfoldable pub try_flat_fee :
      ℕ → Candidate F → ChannelBilling F → Table QuotaUsage → Table QuotaUsage × Pick F
  try_flat_fee month c (metered p) usage = (usage, nothing)
  try_flat_fee month (ch, m) (flat_fee hint quota on_exhausted) usage =
      let u = usage_of month m.mapping_id usage in
      (
        insert m.mapping_id u usage,
        if is_within_quota quota u
            then chosen (ch, m)
            else elim on_exhausted [ block ↦ blocked | fallback_to_metered ↦ nothing ],
      )

  -- The candidates that the first two loops do not skip.
  abbrev pub is_usable : RouterState F → ℕ → Candidate F → Bool
  is_usable st now (ch, m) = has_api_key st ch.channel_id && is_healthy st now ch.channel_id

  -- `continue` goes on with the rest; what is picked, or a block, ends the loop.
  abbrev pub or_continue :
      Table QuotaUsage × Pick F
      → (Table QuotaUsage → Table QuotaUsage × Pick F)
      → Table QuotaUsage × Pick F
  or_continue (usage, chosen c) next = (usage, chosen c)
  or_continue (usage, blocked) next = (usage, blocked)
  or_continue (usage, nothing) next = next usage

  abbrev pub priority_of : Candidate F → ℕ
  priority_of c = c.0.priority

  abbrev pub flat_fees : List (Candidate F) → List (Candidate F)
  flat_fees candidates = sort_desc priority_of (keep (λ c. is_flat_fee c.1.billing) candidates)

  abbrev pub metered_ones : List (Candidate F) → List (Candidate F)
  metered_ones candidates =
      sort_desc priority_of (keep (λ c. not (is_flat_fee c.1.billing)) candidates)

  abbrev pub conclude :
      Table QuotaUsage × Pick F
      → Result (Candidate F)
      → String
      → Table QuotaUsage × Result (Candidate F)
  conclude (usage, chosen c) otherwise client_name = (usage, ok c)
  conclude (usage, blocked) otherwise client_name = (usage, err (channel_selection client_name))
  conclude (usage, nothing) otherwise client_name = (usage, otherwise)

module _ {F : Type 0} (env : Env) (st : RouterState F) where
  -- The loop over the flat-fee candidates, with the usage map.
  unfoldable pub flat_loop : List (Candidate F) → Table QuotaUsage → Table QuotaUsage × Pick F
  flat_loop [] usage = (usage, nothing)
  flat_loop ((ch, m) ∷ cs) usage =
      or_continue
        (if is_usable st env.now (ch, m)
          then try_flat_fee env.month (ch, m) m.billing usage
          else (usage, nothing))
        (flat_loop cs)

  -- The loop over the metered candidates.
  unfoldable pub metered_loop : List (Candidate F) → Option (Candidate F)
  metered_loop = find (is_usable st env.now)

  -- The last loop, over all candidates as they were found.
  unfoldable pub past_cooldown_loop : List (Candidate F) → Option (Candidate F)
  past_cooldown_loop =
      find λ c. has_api_key st c.0.channel_id && is_tryable_channel st env.now c.0.channel_id

  -- The two loops after the flat fees.
  unfoldable pub fall_back : List (Candidate F) → List (Candidate F) → String → Result (Candidate F)
  fall_back by_priority candidates client_name =
      ok_or (channel_selection client_name)
        (or_else (metered_loop by_priority) (past_cooldown_loop candidates))

  -- The usage map after the choice, and the choice.
  unfoldable pub select_channel :
      List (Candidate F) → String → Table QuotaUsage × Result (Candidate F)
  select_channel candidates client_name =
      conclude (flat_loop (flat_fees candidates) st.quota_usage)
        (fall_back (metered_ones candidates) candidates client_name) client_name
