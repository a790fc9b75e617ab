-- ===== src/Cost/Price/Laws.antt =====
-- What costs depend on.
use agent_proxy_rust.Common.{
  ℕ, ◌+◌, ◌≤◌, ◌<◌, String, some, Bool, true, false, List, [], ◌∷◌, ◌++◌, ◌≡◌, arith, find, get_or,
  u64, All, subst, sym,
}
use agent_proxy_rust.Core.Float.{Float}
use agent_proxy_rust.Router.Billing.{TokenPrices, token, PricingTier, per_token, tiered, tokens}
use agent_proxy_rust.Cost.Usage.{Usage}
use agent_proxy_rust.Cost.Price.{
  covers, zero_cost, million, charge, calc_per_token, calc_tiered_tokens, calc_cost,
}

find_after :
    {A : Type 0} (p : A → Bool) (before after : List A) (x : A)
    → All (λ y. p y ≡ false) before
    → p x ≡ true
    → find p (before ++ x ∷ after) ≡ some x
find_after p [] after x none_before here = rw here
find_after p (y ∷ ys) after x (skip, rest) here = rw skip (find_after p ys after x rest here)

-- With tiers of token prices, the cost is the one by the prices of the first tier whose bound is not
-- below the input and output tokens together; cached and thinking tokens do not choose the tier.
pub calc_cost-tiered :
    {F : Type 0} (fl : Float F) (usage : Usage) (before after : List (PricingTier F))
    (t : PricingTier F) (prices : TokenPrices F) (currency : String)
    → usage.input_tokens + usage.output_tokens < 18446744073709551616
    → All (λ u. covers (usage.input_tokens + usage.output_tokens) u ≡ false) before
    → covers (usage.input_tokens + usage.output_tokens) t ≡ true
    → t.price ≡ token prices
    → calc_cost fl usage (tiered tokens (before ++ t ∷ after) currency)
      ≡ calc_cost fl usage (per_token prices currency)
unfolding calc_cost calc_tiered_tokens
calc_cost-tiered fl usage before after t prices currency fits below here price =
    let total : ℕ = usage.input_tokens + usage.output_tokens in
    let same : u64 total ≡ total = omega arith in
    let found : find (covers (u64 total)) (before ++ t ∷ after) ≡ some t =
      subst (λ n. find (covers n) (before ++ t ∷ after) ≡ some t) (sym same)
        (find_after (covers total) before after t below here) in
    rw (calc_tiered_tokens, found, price)

-- What the code relies on in `f64`: `Price` is for numbers that are finite and not negative, `Cost`
-- for those that are not negative, the infinite one with them.
pub record IsMoney {F : Type 0} (fl : Float F) (Price Cost : F → Type 0) : Type 0 where
  pub charge_cost : (n : ℕ) (p : F) → Price p → Cost (charge fl n p)
  pub add_cost : (x y : F) → Cost x → Cost y → Cost (fl.add x y)
  pub of_nat_mono : (a b : ℕ) → a ≤ b → fl.le (fl.of_nat a) (fl.of_nat b) ≡ true
  pub div_mono :
      (x y : F) → fl.le x y ≡ true → fl.le (fl.div x (million fl)) (fl.div y (million fl)) ≡ true
  pub mul_mono :
      (a b : ℕ) (p : F)
      → Price p
      → fl.le (fl.div (fl.of_nat a) (million fl)) (fl.div (fl.of_nat b) (million fl)) ≡ true
      → fl.le (charge fl a p) (charge fl b p) ≡ true
  pub add_mono :
      (a b c d : F)
      → Cost a
      → Cost b
      → Cost c
      → Cost d
      → fl.le a b ≡ true
      → fl.le c d ≡ true
      → fl.le (fl.add a c) (fl.add b d) ≡ true

-- Every price is finite and not negative; a missing one is zero.
pub record ArePrices {F : Type 0} (Price : F → Type 0) (zero : F) (p : TokenPrices F) : Type 0 where
  pub input : Price p.input_per_mtok
  pub output : Price p.output_per_mtok
  pub cache_write : Price (get_or zero p.cache_write_per_mtok)
  pub cache_read : Price (get_or zero p.cache_read_per_mtok)
  pub thinking : Price (get_or zero p.thinking_per_mtok)

-- Every count of the first usage is at most that of the second.
pub record Under (a b : Usage) : Type 0 where
  pub input : a.input_tokens ≤ b.input_tokens
  pub output : a.output_tokens ≤ b.output_tokens
  pub cache_write : a.cache_write_tokens ≤ b.cache_write_tokens
  pub cache_read : a.cache_read_tokens ≤ b.cache_read_tokens
  pub thinking : a.thinking_tokens ≤ b.thinking_tokens

module _ {F : Type 0} {fl : Float F} {Price Cost : F → Type 0} (laws : IsMoney fl Price Cost) where
  -- Two costs, the first at most the second.
  abbrev Grows : F → F → Type 0
  Grows x y = Cost x × Cost y × (fl.le x y ≡ true)

  charge-Grows : (a b : ℕ) (p : F) → a ≤ b → Price p → Grows (charge fl a p) (charge fl b p)
  charge-Grows a b p le fair = (
    laws.charge_cost a p fair,
    laws.charge_cost b p fair,
    laws.mul_mono a b p fair (laws.div_mono _ _ (laws.of_nat_mono a b le)),
  )

  add-Grows : (a b c d : F) → Grows a b → Grows c d → Grows (fl.add a c) (fl.add b d)
  add-Grows a b c d (fa, fb, h) (fc, fd, k) =
      (laws.add_cost a c fa fc, laws.add_cost b d fb fd, laws.add_mono a b c d fa fb fc fd h k)

  -- With prices that are finite and not negative, a usage with at least as many tokens of
  -- each kind costs no less.
  pub calc_cost_mono :
      (a b : Usage) (p : TokenPrices F) (currency : String)
      → Under a b
      → ArePrices Price (zero_cost fl) p
      → fl.le (calc_cost fl a (per_token p currency)).0 (calc_cost fl b (per_token p currency)).0
        ≡ true
  unfolding calc_cost calc_per_token
  calc_cost_mono a b p currency u fair =
      (add-Grows _ _ _ _
        (add-Grows _ _ _ _
          (add-Grows _ _ _ _
            (add-Grows _ _ _ _ (charge-Grows _ _ _ u.input fair.input)
              (charge-Grows _ _ _ u.output fair.output))
            (charge-Grows _ _ _ u.cache_write fair.cache_write))
          (charge-Grows _ _ _ u.cache_read fair.cache_read))
        (charge-Grows _ _ _ u.thinking fair.thinking)).2
