-- ===== src/Core/Float.antt =====
-- `f64`: the type and the operations that the code uses, as a parameter.
use agent_proxy_rust.Common.{ℕ, Bool}

pub record Float (F : Type 0) : Type 0 where
  pub of_nat : ℕ → F
  pub add : F → F → F
  pub sub : F → F → F
  pub mul : F → F → F
  pub div : F → F → F
  pub le : F → F → Bool
  pub min : F → F → F
  -- The literal 0.75.
  pub three_quarters : F
