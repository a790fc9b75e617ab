-- ===== src/Storage/Sql.antt =====
-- The clauses of SQL that the statements of crates/storage-sqlite/src/lib.rs use, on lists of rows
-- in the order of insertion, and what a connection answers. A row that is updated keeps its place.
-- Rows that an `ORDER BY` does not tell apart stay in that order.
pub mod Laws
pub mod Order
use agent_proxy_rust.Common.{
  ℕ, zero, suc, ◌-◌, String, Option, none, some, Bool, true, false, not, ◌||◌, ◌&&◌, List, [], ◌∷◌,
  ◌++◌, map, if◌then◌else◌, ltb, ◌==◌, codes, keep, any, length,
}
use agent_proxy_rust.Storage.Types.{StorageError, backend, connection}

-- `Result<A, StorageError>` with the tables that a call leaves.
pub data Outcome (A : Type 0) : Type 0 where
  failed : StorageError → Outcome A
  done : A → Outcome A

-- What the pool and the engine answer in one call: the message of a pool that gives no connection;
-- that of the statement of this number, if it fails; whether foreign keys are enforced; and the
-- texts of the errors of the driver.
pub record Conn : Type 0 where
  pub refused : Option String
  pub trouble : ℕ → Option String
  pub foreign_keys : Bool
  pub no_rows : String
  pub out_of_range : ℕ → String
  pub foreign_key_failed : String
  pub unique_failed : String
  pub integer_overflow : String

module _ {S A : Type 0} where
  -- `pool.get()` with its error.
  abbrev pub pooled : Option String → S → S × Outcome A → S × Outcome A
  pooled none s body = body
  pooled (some message) s body = (s, failed (connection message))

  abbrev pub with_conn : Conn → S → S × Outcome A → S × Outcome A
  with_conn conn s body = pooled conn.refused s body

  -- A statement that the engine fails changes nothing, and the call ends there.
  abbrev pub statement : Option String → S → S × Outcome A → S × Outcome A
  statement none s rest = rest
  statement (some message) s rest = (s, failed (backend message))

module _ {A : Type 0} where
  -- `UPDATE … SET f WHERE p`, and the number of rows that it reports.
  abbrev pub update_where : (A → Bool) → (A → A) → List A → List A
  update_where p f [] = []
  update_where p f (x ∷ xs) = (if p x then f x else x) ∷ update_where p f xs

  abbrev pub delete_where : (A → Bool) → List A → List A
  delete_where p [] = []
  delete_where p (x ∷ xs) = if p x then delete_where p xs else x ∷ delete_where p xs

  -- `INSERT … ON CONFLICT(key) DO UPDATE`: the row of the key, which `p` tells, is merged.
  abbrev pub upsert_where : (A → Bool) → (A → A) → A → List A → List A
  upsert_where p merge new rows =
      if any p rows then update_where p merge rows else rows ++ (new ∷ [])

  -- `ORDER BY`, where `le` says which of two rows may come first.
  unfoldable pub insert_row : (A → A → Bool) → A → List A → List A
  insert_row le x [] = x ∷ []
  insert_row le x (y ∷ ys) = if le x y then x ∷ y ∷ ys else y ∷ insert_row le x ys

  unfoldable pub order_by : (A → A → Bool) → List A → List A
  order_by le [] = []
  order_by le (x ∷ xs) = insert_row le x (order_by le xs)

  -- `LIMIT n OFFSET m`.
  abbrev pub take : ℕ → List A → List A
  take zero xs = []
  take (suc n) [] = []
  take (suc n) (x ∷ xs) = x ∷ take n xs

  abbrev pub drop : ℕ → List A → List A
  drop zero xs = xs
  drop (suc n) [] = []
  drop (suc n) (x ∷ xs) = drop n xs

  abbrev pub page : ℕ → ℕ → List A → List A
  page limit offset rows = take limit (drop offset rows)

-- The order of text is that of its bytes, and so of its code points.
abbrev pub codes_le : List ℕ → List ℕ → Bool
codes_le [] t = true
codes_le (a ∷ s) [] = false
codes_le (a ∷ s) (b ∷ t) = ltb a b || (a == b && codes_le s t)

abbrev pub text_le : String → String → Bool
text_le a b = codes_le (codes a) (codes b)

abbrev pub text_lt : String → String → Bool
text_lt a b = not (text_le b a)
