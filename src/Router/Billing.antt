-- ===== src/Router/Billing.antt =====
-- The pricing and billing types of crates/model-router/src/types.rs, over the type `F` of `f64`.
use agent_proxy_rust.Common.{
  ℕ, String, Option, none, some, Bool, true, false, List, if◌then◌else◌, str_eq, get_or,
}

pub data BillingDimension : Type 0 where
  tokens : BillingDimension
  duration : Option String → BillingDimension
  images : Option String → BillingDimension

-- The prices of a million tokens: input, output, cache write, cache read, thinking.
pub record TokenPrices (F : Type 0) : Type 0 where
  pub input_per_mtok : F
  pub output_per_mtok : F
  pub cache_write_per_mtok : Option F
  pub cache_read_per_mtok : Option F
  pub thinking_per_mtok : Option F

pub data TierPrice (F : Type 0) : Type 0 where
  token : TokenPrices F → TierPrice F
  unit : F → TierPrice F

pub record PricingTier (F : Type 0) : Type 0 where
  pub up_to : Option ℕ
  pub price : TierPrice F

-- `credits` has the credits of a million input tokens, of a million output tokens and of a request;
-- `char_based` the price of a million characters and the output multiplier.
pub data Pricing (F : Type 0) : Type 0 where
  per_token : TokenPrices F → String → Pricing F
  credits : Option F → Option F → Option F → Pricing F
  char_based : F → Option F → Pricing F
  per_unit : BillingDimension → F → String → Pricing F
  tiered : BillingDimension → List (PricingTier F) → String → Pricing F

pub data Quota : Type 0 where
  unlimited : Quota
  max_requests : ℕ → Quota
  max_tokens : ℕ → Quota

pub data ExhaustedAction : Type 0 where
  fallback_to_metered block : ExhaustedAction

-- `flat_fee` has the monthly cost hint, the quota and the action when it is exhausted.
pub data ChannelBilling (F : Type 0) : Type 0 where
  metered : Pricing F → ChannelBilling F
  flat_fee : Option F → Option Quota → ExhaustedAction → ChannelBilling F

-- The JSON of a flat fee, each field optional.
pub record FlatFeeConfig (F : Type 0) : Type 0 where
  pub monthly_cost_hint : Option F
  pub quota : Option Quota
  pub on_exhausted : Option ExhaustedAction

-- What `serde_json` makes of the JSON of prices.
pub record PricingJson (F : Type 0) : Type 0 where
  pub parse_pricing : String → Option (Pricing F)
  pub parse_flat_fee : String → Option (FlatFeeConfig F)
  pub print_pricing : Pricing F → Option String

module _ {F : Type 0} where
  -- `none` is an error, which the callers only log.
  unfoldable pub from_storage : PricingJson F → String → String → Option (ChannelBilling F)
  from_storage pj billing pricing_json =
      if str_eq billing "metered"
      then elim (pj.parse_pricing pricing_json) [ none ↦ none | some p ↦ some (metered p) ]
      else if str_eq billing "flatfee"
      then elim (pj.parse_flat_fee pricing_json) [
        | none ↦ some (flat_fee none none fallback_to_metered)
        | some cfg ↦
            some (
              flat_fee cfg.monthly_cost_hint cfg.quota
                (get_or fallback_to_metered cfg.on_exhausted))
      ]
      else none

  abbrev pub is_flat_fee : ChannelBilling F → Bool
  is_flat_fee (metered p) = false
  is_flat_fee (flat_fee hint quota on_exhausted) = true

  abbrev pub pricing : ChannelBilling F → Option (Pricing F)
  pricing (metered p) = some p
  pricing (flat_fee hint quota on_exhausted) = none
