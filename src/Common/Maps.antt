-- ===== src/Common/Maps.antt =====
-- `HashMap` and `DashMap` with text keys, as association lists. Only lookups see the order, and a
-- key is held once by every map that `insert` builds.
use Prim.Native.String.{String}
use mathlib.Core.Path.{◌≡◌, refl}
use mathlib.Core.Option.{Option, none, some}
use mathlib.Core.List.{List, [], ◌∷◌}
use native.Mathlib.Omega.{arith}
use text.Mathlib.TextEquality.{eq_iff}
use text.Mathlib.TextPositions.{eq_refl}
use agent_proxy_rust.Common.Tests.{str_eq, if◌then◌else◌}

abbrev pub Table {ℓ} : Type ℓ → Type ℓ
Table V = List (String × V)

module _ {ℓ} {V : Type ℓ} where
  unfoldable pub lookup : String → Table V → Option V
  lookup key [] = none
  lookup key ((own, value) ∷ rest) = if str_eq own key then some value else lookup key rest

  -- The entry under a key is replaced, or else a new one goes to the end.
  unfoldable pub insert : String → V → Table V → Table V
  insert key value [] = (key, value) ∷ []
  insert key value ((own, old) ∷ rest) =
      let more = insert key value rest in
      if str_eq own key then (key, value) ∷ rest else (own, old) ∷ more

  -- The entries are inserted one after the other: of several under a key the last one stays.
  unfoldable pub insert_all : Table V → Table V → Table V
  insert_all table [] = table
  insert_all table ((key, value) ∷ rest) = insert_all (insert key value table) rest

  pub lookup-insert :
      (key asked : String) (value : V) (table : Table V)
      → lookup asked (insert key value table)
        ≡ (if str_eq key asked then some value else lookup asked table)
  unfolding lookup insert
  lookup-insert key asked value [] = refl
  lookup-insert key asked value ((own, old) ∷ rest) = ground (
    arith,
    lookup-insert key asked value rest,
    eq_iff own key,
    eq_iff own asked,
    eq_iff key asked,
  )

  pub lookup-insert_self :
      (key : String) (value : V) (table : Table V)
      → lookup key (insert key value table) ≡ some value
  lookup-insert_self key value table = simp (lookup-insert, eq_refl)
