-- ===== src/Storage/Lifecycle.antt =====
-- `migrate` and `health_check` of crates/storage-sqlite/src/lib.rs, with the rows that the
-- migrations insert. The first migration makes the tables, which are empty before; what it inserts
-- into seed_metadata is in the component of the seeds.
pub mod Laws
use agent_proxy_rust.Common.{
  ℕ, String, Option, none, some, Bool, true, List, [], ◌∷◌, if◌then◌else◌, ltb, any, ◌+◌, ◌++◌,
}
use agent_proxy_rust.Storage.Types.{ModelAlias, migration, connection}
use agent_proxy_rust.Storage.Sql.{Outcome, failed, done, Conn, take}
use agent_proxy_rust.Storage.Db.{Db}
use agent_proxy_rust.Storage.Aliases.{is_alias}

-- The row of `INSERT INTO model_aliases (alias_name, target_model) VALUES (name, '')`, with the
-- defaults of the other columns.
unfoldable pub seeded_alias : ℕ → String → String → ModelAlias
seeded_alias id now name = record {
  id = id;
  alias_name = name;
  target_model = "";
  enabled = true;
  created_at = now;
  updated_at = now;
}

-- `INSERT OR IGNORE`.
abbrev pub seed_alias : {F : Type 0} → String → String → Db F → Db F
seed_alias now name db = if any (is_alias name) db.model_aliases then db else record db {
  model_aliases = db.model_aliases ++ (seeded_alias db.next_alias_id now name ∷ []);
  next_alias_id = db.next_alias_id + 1;
}

unfoldable pub seed_aliases : {F : Type 0} → String → List String → Db F → Db F
seed_aliases now [] db = db
seed_aliases now (name ∷ names) db = seed_aliases now names (seed_alias now name db)

-- The names that migrations/002_model_aliases.sql inserts.
abbrev pub codex_models : List String
codex_models = "gpt-5.5" ∷ "gpt-5.4" ∷ "gpt-5.4-mini" ∷ "gpt-5.3-codex" ∷ "gpt-5.2" ∷ []

module _ {F : Type 0} where
  abbrev pub migration_step :
      Option String → Db F → Db F × Outcome (Unit {0}) → Db F × Outcome (Unit {0})
  migration_step none db rest = rest
  migration_step (some message) db rest = (db, failed (migration message))

  -- A version that cannot be read counts as 0.
  abbrev pub version_read : Option String → Db F → ℕ
  version_read none db = db.user_version
  version_read (some message) db = 0

  -- The second migration, from a version.
  abbrev pub second_migration : ℕ → String → Db F → Db F
  second_migration version now db = if ltb version 2 then seed_aliases now codex_models db else db

  abbrev pub pooled : Option String → Db F → Db F × Outcome (Unit {0}) → Db F × Outcome (Unit {0})
  pooled none db rest = rest
  pooled (some message) db rest = (db, failed (connection message))

  abbrev pub finish : Option String → Db F → Db F × Outcome (Unit {0})
  finish trouble db = migration_step trouble db (record db { user_version = 2 }, done tt)

  abbrev pub migrate_from : ℕ → Conn → ℕ → String → Db F → Db F × Outcome (Unit {0})
  migrate_from version conn some_rows now db =
      migration_step (if ltb version 1 then conn.trouble 1 else none) db (
        migration_step (if ltb version 2 then conn.trouble 2 else none)
          (seed_aliases now (take some_rows codex_models) db)
          (finish (conn.trouble 3) (second_migration version now db)))

  -- The statement with number 0 reads the version. A batch is no transaction: when the second one
  -- fails, `some_rows` of its rows are there.
  unfoldable pub migrate : Conn → ℕ → String → Db F → Db F × Outcome (Unit {0})
  migrate conn some_rows now db =
      pooled conn.refused db (migrate_from (version_read (conn.trouble 0) db) conn some_rows now db)

  -- Both errors are `Connection`, and the first does not carry the pool's message.
  abbrev pub checked : Option String → Option String → Db F → Db F × Outcome Bool
  checked (some message) trouble db = (db, failed (connection "unable to get connection"))
  checked none (some message) db = (db, failed (connection message))
  checked none none db = (db, done true)

  unfoldable pub health_check : Conn → Db F → Db F × Outcome Bool
  health_check conn db = checked conn.refused (conn.trouble 0) db
