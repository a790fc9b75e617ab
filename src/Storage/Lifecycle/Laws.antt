-- ===== src/Storage/Lifecycle/Laws.antt =====
-- Migrating again, and what a migration leaves of the aliases.
use agent_proxy_rust.Common.{
  ℕ, ◌≡◌, refl, ap, String, Option, none, some, Bool, List, [], ◌∷◌, ◌++◌, find, arith, sym,
}
use agent_proxy_rust.Storage.Types.{ModelAlias}
use agent_proxy_rust.Storage.Sql.{done, Conn, take}
use agent_proxy_rust.Storage.Sql.Laws.{find-append}
use agent_proxy_rust.Storage.Db.{Db}
use agent_proxy_rust.Storage.Aliases.{is_alias, alias_named}
use agent_proxy_rust.Storage.Lifecycle.{
  seeded_alias, finish, seed_alias, seed_aliases, codex_models, migrate,
}

-- Whoever is found in a table that only grows at its end is found again.
found-append :
    (p : ModelAlias → Bool) (xs ys : List ModelAlias) {a : ModelAlias}
    → find p xs ≡ some a
    → find p (xs ++ ys) ≡ some a
found-append p xs ys h = rw (find-append p xs ys, h) refl

module _ {F : Type 0} where
  seed_alias-keeps :
      (now name asked : String) (db : Db F) {a : ModelAlias}
      → alias_named asked db ≡ some a
      → alias_named asked (seed_alias now name db) ≡ some a
  seed_alias-keeps now name asked db h = ground (
    arith,
    h,
    found-append (is_alias asked) db.model_aliases (seeded_alias db.next_alias_id now name ∷ []) h,
  )

  seed_aliases-keeps :
      (now : String) (names : List String) (asked : String) (db : Db F) {a : ModelAlias}
      → alias_named asked db ≡ some a
      → alias_named asked (seed_aliases now names db) ≡ some a
  unfolding seed_aliases
  seed_aliases-keeps now [] asked db h = h
  seed_aliases-keeps now (name ∷ names) asked db h =
      seed_aliases-keeps now names asked (seed_alias now name db)
        (seed_alias-keeps now name asked db h)

  -- An alias that is there before a migration is there after it, unchanged: the rows that the
  -- migration inserts never replace an operator's, not even when it fails half-way.
  pub migrate-keeps :
      (conn : Conn) (some_rows : ℕ) (now asked : String) (db : Db F) {a : ModelAlias}
      → alias_named asked db ≡ some a
      → alias_named asked (migrate conn some_rows now db).0 ≡ some a
  unfolding migrate
  migrate-keeps conn some_rows now asked db h = ground (
    arith,
    h,
    seed_aliases-keeps now codex_models asked db h,
    seed_aliases-keeps now (take some_rows codex_models) asked db h,
  )

  finish-tables :
      (trouble : Option String) (db : Db F) → db.user_version ≡ 2 → (finish trouble db).0 ≡ db
  finish-tables none db h = ap (λ v. record db { user_version = v }) (sym h)
  finish-tables (some message) db h = refl

  migrated-still :
      (conn : Conn) (some_rows : ℕ) (now : String) (db : Db F)
      → db.user_version ≡ 2
      → conn.trouble 0 ≡ none
      → (migrate conn some_rows now db).0 ≡ db
  unfolding migrate
  migrated-still conn some_rows now db h reads =
      ground (arith, h, reads, finish-tables (conn.trouble 3) db h)

  migrate-version :
      (conn : Conn) (some_rows : ℕ) (now : String) (db : Db F)
      → (migrate conn some_rows now db).1 ≡ done tt
      → (migrate conn some_rows now db).0.user_version ≡ 2
  unfolding migrate
  migrate-version conn some_rows now db h = ground (arith, h)

  -- A migration that succeeded is not repeated: another one that reads the version, whatever else
  -- happens to it, leaves the tables as they are.
  pub migrate_idempotent :
      (conn again : Conn) (some_rows other_rows : ℕ) (now later : String) (db : Db F)
      → (migrate conn some_rows now db).1 ≡ done tt
      → again.trouble 0 ≡ none
      → let db' = (migrate conn some_rows now db).0 in (migrate again other_rows later db').0 ≡ db'
  migrate_idempotent conn again some_rows other_rows now later db h reads =
      migrated-still again other_rows later (migrate conn some_rows now db).0
        (migrate-version conn some_rows now db h) reads
