-- ===== src/Resilience/Limiter/Laws.antt =====
-- How full a bucket can be, and how many requests it lets through at one instant.
use agent_proxy_rust.Common.{
  ℕ, zero, suc, ◌+◌, ◌-◌, ◌<◌, ◌≤◌, ◌≡◌, refl, true, false, arith, leb, if◌then◌else◌, min,
  Bool-cases, inl, inr, ◌∙◌,
}
use agent_proxy_rust.Core.Float.{Float}
use agent_proxy_rust.Resilience.Limiter.{TokenBucket, new_bucket, refill, try_consume}

-- What the bucket relies on of `f64`: its order at the numbers of a `u32`, exact arithmetic on
-- these, and a refill that is not negative where the window is not empty.
pub record IsFloat {F : Type 0} (f : Float F) (seconds : ℕ → F) : Type 0 where
  pub min_le : (x : F) (n : ℕ) → f.le (f.min x (f.of_nat n)) (f.of_nat n) ≡ true
  pub min_nonneg :
      (x : F) (n : ℕ) → f.le (f.of_nat 0) x ≡ true → f.le (f.of_nat 0) (f.min x (f.of_nat n)) ≡ true
  pub add_nonneg :
      (x y : F)
      → f.le (f.of_nat 0) x ≡ true
      → f.le (f.of_nat 0) y ≡ true
      → f.le (f.of_nat 0) (f.add x y) ≡ true
  pub sub_nonneg :
      (x : F) → f.le (f.of_nat 1) x ≡ true → f.le (f.of_nat 0) (f.sub x (f.of_nat 1)) ≡ true
  pub sub_le :
      (x : F) (n : ℕ) → f.le x (f.of_nat n) ≡ true → f.le (f.sub x (f.of_nat 1)) (f.of_nat n) ≡ true
  pub le_of_nat :
      (a b : ℕ) → a < 4294967296 → b < 4294967296 → f.le (f.of_nat a) (f.of_nat b) ≡ leb a b
  pub min_of_nat : (a b : ℕ) → a ≤ b → b < 4294967296 → f.min (f.of_nat a) (f.of_nat b) ≡ f.of_nat a
  pub add_zero : (a : ℕ) → a < 4294967296 → f.add (f.of_nat a) (f.of_nat 0) ≡ f.of_nat a
  pub sub_one : (a : ℕ) → suc a < 4294967296 → f.sub (f.of_nat (suc a)) (f.of_nat 1) ≡ f.of_nat a
  pub refill_nonneg :
      (n w d : ℕ)
      → 0 < w
      → f.le (f.of_nat 0) (f.mul (seconds d) (f.div (f.of_nat n) (seconds w))) ≡ true
  pub refill_none :
      (n w : ℕ) → 0 < w → f.mul (seconds 0) (f.div (f.of_nat n) (seconds w)) ≡ f.of_nat 0

module _ {F : Type 0} {f : Float F} {seconds : ℕ → F} (laws : IsFloat f seconds) where
  open laws use {
    min_le, min_nonneg, add_nonneg, sub_nonneg, sub_le, le_of_nat, min_of_nat, add_zero, sub_one,
    refill_nonneg, refill_none,
  }

  -- A bucket of the given window: its rate is that of its capacity, and it is neither overdrawn nor
  -- overfull.
  pub record IsBucket (window : ℕ) (b : TokenBucket F) : Type 0 where
    pub rate : b.refill_rate ≡ f.div (f.of_nat b.capacity) (seconds window)
    pub not_overdrawn : f.le (f.of_nat 0) b.tokens ≡ true
    pub not_overfull : f.le b.tokens (f.of_nat b.capacity) ≡ true

  refill-IsBucket :
      (window now : ℕ) (b : TokenBucket F)
      → 0 < window
      → IsBucket window b
      → IsBucket window (refill f seconds now b)
  unfolding refill
  refill-IsBucket window now b pos v = record {
    rate = v.rate;
    not_overdrawn = min_nonneg _ b.capacity (
        add_nonneg _ _ v.not_overdrawn
          (rw v.rate (refill_nonneg b.capacity window (now - b.last_refill) pos)));
    not_overfull = min_le _ b.capacity;
  }

  take-IsBucket :
      (window : ℕ) (b : TokenBucket F)
      → IsBucket window b
      → f.le (f.of_nat 1) b.tokens ≡ true
      → IsBucket window (record b { tokens = f.sub b.tokens (f.of_nat 1) })
  take-IsBucket window b v h = record {
    rate = v.rate;
    not_overdrawn = sub_nonneg b.tokens h;
    not_overfull = sub_le b.tokens b.capacity v.not_overfull;
  }

  -- At whatever instants it is asked, a bucket with a window that is not empty keeps its rate and its
  -- capacity and stays between no tokens and its capacity, whether the request is granted or not.
  pub try_consume-IsBucket :
      (window now : ℕ) (b : TokenBucket F)
      → 0 < window
      → IsBucket window b
      → IsBucket window (try_consume f seconds now b).0
        × ((try_consume f seconds now b).0.capacity ≡ b.capacity)
  unfolding try_consume refill
  try_consume-IsBucket window now b pos v =
      let filled = refill f seconds now b in
      elim (Bool-cases (f.le (f.of_nat 1) filled.tokens)) [
        | inl enough ↦
            rw enough
              (take-IsBucket window filled (refill-IsBucket window now b pos v) enough, refl)
        | inr few ↦ rw few (refill-IsBucket window now b pos v, refl)
      ]

-- How many of `tries` requests at one instant are granted.
pub grants : {F : Type 0} → Float F → (ℕ → F) → ℕ → ℕ → TokenBucket F → ℕ
grants f seconds now zero b = 0
grants f seconds now (suc tries) b =
    (if (try_consume f seconds now b).1 then 1 else 0)
    + grants f seconds now tries (try_consume f seconds now b).0

module _ {F : Type 0} {f : Float F} {seconds : ℕ → F} (laws : IsFloat f seconds)
    (now n window : ℕ) where
  open laws use {le_of_nat, min_of_nat, add_zero, sub_one, refill_none}

  -- A bucket for `n` requests that was refilled at `now` and holds `k` tokens.
  record IsAtLevel (k : ℕ) (b : TokenBucket F) : Type 0 where
    capacity : b.capacity ≡ n
    tokens : b.tokens ≡ f.of_nat k
    rate : b.refill_rate ≡ f.div (f.of_nat n) (seconds window)
    last_refill : b.last_refill ≡ now

  IsAtLevel-refill :
      (k : ℕ) (b : TokenBucket F)
      → 0 < window
      → k ≤ n
      → n < 4294967296
      → IsAtLevel k b
      → IsAtLevel k (refill f seconds now b)
  unfolding refill
  IsAtLevel-refill k b pos fits small h = record {
    capacity = h.capacity;
    tokens =
        rw (h.tokens, h.rate, h.last_refill, h.capacity)
          (let idle : now - now ≡ 0 = omega arith in
            rw (idle, refill_none n window pos, add_zero k (omega arith))
              (min_of_nat k n fits small));
    rate = h.rate;
    last_refill = refl;
  }

  grants-level :
      (tries k : ℕ) (b : TokenBucket F)
      → 0 < window
      → k ≤ n
      → n < 4294967296
      → IsAtLevel k b
      → grants f seconds now tries b ≡ min tries k
  unfolding grants try_consume
  grants-level zero k b pos fits small h = omega arith
  grants-level (suc tries) zero b pos fits small h =
      let full = IsAtLevel-refill zero b pos fits small h in
      let test : f.le (f.of_nat 1) (refill f seconds now b).tokens ≡ false =
        rw full.tokens (le_of_nat 1 0 (omega arith) (omega arith)) in
      rw test (omega (arith, grants-level tries zero (refill f seconds now b) pos fits small full))
  grants-level (suc tries) (suc k) b pos fits small h =
      let full = IsAtLevel-refill (suc k) b pos fits small h in
      let test : f.le (f.of_nat 1) (refill f seconds now b).tokens ≡ true =
        rw full.tokens (le_of_nat 1 (suc k) (omega arith) (omega arith) ∙ ground arith) in
      let left : IsAtLevel k (record (refill f seconds now b) {
        tokens = f.sub (refill f seconds now b).tokens (f.of_nat 1);
      }) =
        record {
          capacity = full.capacity;
          tokens = rw full.tokens (sub_one k (omega arith));
          rate = full.rate;
          last_refill = full.last_refill;
        } in
      rw test (
        omega (
          arith,
          grants-level tries k
              (record (refill f seconds now b) {
                tokens = f.sub (refill f seconds now b).tokens (f.of_nat 1);
              })
              pos (omega arith) small left,
        ))

-- Of any number of requests at the instant of its creation, a new bucket grants as many as its
-- capacity and refuses the rest, where the window is not empty and the capacity is a `u32`.
pub new_bucket-grants :
    {F : Type 0} {f : Float F} {seconds : ℕ → F}
    → IsFloat f seconds
    → (now n window tries : ℕ) → 0 < window
    → n < 4294967296
    → grants f seconds now tries (new_bucket f seconds now n window) ≡ min tries n
unfolding new_bucket
new_bucket-grants {f} {seconds} laws now n window tries pos small =
    grants-level laws now n window tries n (new_bucket f seconds now n window) pos (omega arith)
      small (record { capacity = refl; tokens = refl; rate = refl; last_refill = refl })
