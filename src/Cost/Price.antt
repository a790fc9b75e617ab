-- ===== src/Cost/Price.antt =====
-- Cost calculation of crates/cost/src/lib.rs, over the type `F` of `f64`. The sum of input and output
-- tokens wraps at 64 bits, as in a release build.
pub mod Laws
use agent_proxy_rust.Common.{
  ℕ, ◌+◌, String, Option, none, some, Bool, true, false, List, [], ◌∷◌, leb, find, get_or, u64,
}
use agent_proxy_rust.Core.Float.{Float}
use agent_proxy_rust.Router.Billing.{
  BillingDimension, tokens, duration, images, TokenPrices, TierPrice, token, unit, PricingTier,
  Pricing, per_token, credits, char_based, per_unit, tiered,
}
use agent_proxy_rust.Cost.Usage.{Usage}

-- The bound of a tier covers this many tokens.
abbrev pub covers : {F : Type 0} → ℕ → PricingTier F → Bool
covers total t = elim t.up_to [ none ↦ true | some limit ↦ leb total limit ]

module _ {F : Type 0} (fl : Float F) where
  -- The literals 0.0 and 1_000_000.0.
  abbrev pub zero_cost : F
  zero_cost = fl.of_nat 0

  abbrev pub million : F
  million = fl.of_nat 1_000_000

  -- `tokens as f64 / 1_000_000.0 * price`.
  abbrev pub charge : ℕ → F → F
  charge n price = fl.mul (fl.div (fl.of_nat n) million) price

  unfoldable pub calc_per_token : Usage → TokenPrices F → String → F × String
  calc_per_token usage p currency =
      let input_cost = charge usage.input_tokens p.input_per_mtok in
      let output_cost = charge usage.output_tokens p.output_per_mtok in
      let cache_write_cost =
        charge usage.cache_write_tokens (get_or zero_cost p.cache_write_per_mtok) in
      let cache_read_cost =
        charge usage.cache_read_tokens (get_or zero_cost p.cache_read_per_mtok) in
      let thinking_cost = charge usage.thinking_tokens (get_or zero_cost p.thinking_per_mtok) in
      (
        fl.add (fl.add (fl.add (fl.add input_cost output_cost) cache_write_cost) cache_read_cost)
            thinking_cost,
        currency,
      )

  -- The cost by the price of a tier.
  abbrev pub tier_cost : Usage → String → TierPrice F → F × String
  tier_cost usage currency (token p) = calc_per_token usage p currency
  tier_cost usage currency (unit price) = (zero_cost, currency)

  unfoldable pub calc_tiered_tokens : Usage → List (PricingTier F) → String → F × String
  calc_tiered_tokens usage tiers currency =
      elim (find (covers (u64 (usage.input_tokens + usage.output_tokens))) tiers) [
        | some t ↦ tier_cost usage currency t.price
        | none ↦ (zero_cost, currency)
      ]

  unfoldable pub calc_cost : Usage → Pricing F → F × String
  unfolding calc_per_token calc_tiered_tokens
  calc_cost usage (per_token p currency) = calc_per_token usage p currency
  calc_cost usage (credits input_price output_price request_price) =
      let input = charge usage.input_tokens (get_or zero_cost input_price) in
      let output = charge usage.output_tokens (get_or zero_cost output_price) in
      (fl.add (fl.add input output) (get_or zero_cost request_price), "credits")
  calc_cost usage (char_based price output_multiplier) =
      let input_chars = fl.mul (fl.of_nat usage.input_tokens) fl.three_quarters in
      let output_chars =
        fl.mul (fl.mul (fl.of_nat usage.output_tokens) fl.three_quarters)
          (get_or (fl.of_nat 1) output_multiplier) in
      (fl.mul (fl.div (fl.add input_chars output_chars) million) price, "CNY")
  calc_cost usage (per_unit dimension price currency) = (price, currency)
  calc_cost usage (tiered tokens tiers currency) = calc_tiered_tokens usage tiers currency
  calc_cost usage (tiered (duration d) tiers currency) = (zero_cost, currency)
  calc_cost usage (tiered (images d) tiers currency) = (zero_cost, currency)
