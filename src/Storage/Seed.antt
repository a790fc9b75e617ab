-- ===== src/Storage/Seed.antt =====
-- crates/storage-sqlite/src/seed.rs: the seed data and its refresh. The JSON readers, the hash, the
-- HTTP client and the texts of numbers are parameters; `trouble` is the engine's error at the row of
-- an id or of a metadata key. A manifest is the list of its entries in the order of the map's
-- iteration. Foreign keys are enforced.
pub mod Refresh
pub mod Laws
use agent_proxy_rust.Core.Error.{◌<>◌}
use agent_proxy_rust.Common.{
  ℕ, ◌+◌, String, Option, none, some, Bool, true, false, not, ◌&&◌, ◌||◌, List, [], ◌∷◌, ◌++◌,
  if◌then◌else◌, str_eq, leb, ltb, any, get_or, and_then, Table, lookup, insert, is_empty, is_blank,
  keep_if, map_option, contains, trim_slashes, is_some,
}
use agent_proxy_rust.Storage.Types.{
  Channel, ModelMapping, SeedManifest, SeedManifestEntry, SeedStatus, SeedEntryStatus, StorageError,
  backend,
}
use agent_proxy_rust.Storage.Sql.{Outcome, failed, done, upsert_where}
use agent_proxy_rust.Storage.Db.{Db, ProviderRow, ModelRow}
use agent_proxy_rust.Storage.Channels.{has_id}
use agent_proxy_rust.Storage.Mappings.{is_mapping}

pub record SeedChannel : Type 0 where
  pub id : String
  pub name : String
  pub api_key : String
  pub protocol : String
  pub protocols : String
  pub is_builtin : Bool
  pub enabled : Bool
  pub billing_type : String
  pub monthly_quota : Option ℕ
  pub quota_policy : String
  pub priority : ℕ

-- The tables with seed_metadata, of which the times are left out.
pub record SeedDb (F : Type 0) : Type 0 where
  pub db : Db F
  pub metadata : Table String

pub record SeedOutside (F : Type 0) : Type 0 where
  pub parse_providers : String → Option (List ProviderRow)
  pub parse_models : String → Option (List (ModelRow F))
  pub parse_channels : String → Option (List SeedChannel)
  pub parse_mappings : String → Option (List ModelMapping)
  pub json_error : String → String
  pub sha256 : String → String
  pub fetch : String → Outcome String
  pub fetch_manifest : String → Outcome SeedManifest
  pub trouble : String → Option String
  pub foreign_key_failed : String
  pub print_u32 : ℕ → String
  pub parse_u32 : String → Option ℕ
  pub print_error : StorageError → String

-- The row of a seed channel that is new, with the defaults of the other columns.
unfoldable pub seeded_channel : ℕ → SeedChannel → Channel
seeded_channel now ch = record {
  id = ch.id;
  name = ch.name;
  api_key = ch.api_key;
  protocol = ch.protocol;
  protocols = ch.protocols;
  is_builtin = ch.is_builtin;
  enabled = ch.enabled;
  created_at = now;
  updated_at = now;
  health_status = "Healthy";
  cooldown_until = none;
  consecutive_failures = 0;
  billing_type = ch.billing_type;
  monthly_quota = ch.monthly_quota;
  quota_policy = ch.quota_policy;
  priority = ch.priority;
  force_protocol = none;
}

-- The columns that `ON CONFLICT(id) DO UPDATE` names.
unfoldable pub reseeded_channel : ℕ → SeedChannel → Channel → Channel
reseeded_channel now ch old = record old {
  name = ch.name;
  protocol = ch.protocol;
  protocols = ch.protocols;
  is_builtin = ch.is_builtin;
  updated_at = now;
  billing_type = ch.billing_type;
  monthly_quota = ch.monthly_quota;
  quota_policy = ch.quota_policy;
  priority = ch.priority;
}

module _ {F : Type 0} where
  -- `?` between the rows of a loop.
  abbrev pub and_done :
      SeedDb F × Outcome (Unit {0})
      → (SeedDb F → SeedDb F × Outcome (Unit {0}))
      → SeedDb F × Outcome (Unit {0})
  and_done (s, failed e) next = (s, failed e)
  and_done (s, done u) next = next s

  abbrev pub each_row :
      {A : Type 0}
      → (A → SeedDb F → SeedDb F × Outcome (Unit {0}))
      → List A
      → SeedDb F
      → SeedDb F × Outcome (Unit {0})
  each_row f [] s = (s, done tt)
  each_row f (x ∷ xs) s = and_done (f x s) (each_row f xs)

  abbrev pub run_row : Option String → SeedDb F → Db F → SeedDb F × Outcome (Unit {0})
  run_row none s db = (record s { db = db }, done tt)
  run_row (some message) s db = (s, failed (backend message))

  -- `INSERT OR IGNORE`: a provider whose id or name is there stays as it is.
  abbrev pub put_provider : Db F → ProviderRow → Db F
  put_provider db p =
      if any (λ x. str_eq x.id p.id || str_eq x.name p.name) db.providers
      then db
      else record db { providers = db.providers ++ (p ∷ []) }

  -- The same for a model, by its id or its client name.
  abbrev pub put_model : Db F → ModelRow F → Db F
  put_model db m =
      if any (λ x. str_eq x.id m.id || str_eq x.client_name m.client_name) db.models
      then db
      else record db { models = db.models ++ (m ∷ []) }

  unfoldable pub put_channel : ℕ → Db F → SeedChannel → Db F
  put_channel now db ch = record db {
    channels =
        upsert_where (has_id ch.id) (reseeded_channel now ch) (seeded_channel now ch) db.channels;
  }

  abbrev pub put_mapping : Db F → ModelMapping → Db F
  put_mapping db m = record db {
    model_mappings = upsert_where (is_mapping m.id) (λ old. m) m db.model_mappings;
  }

module _ {F : Type 0} (out : SeedOutside F) (now : ℕ) where
  -- A time of creation before now is now.
  abbrev pub not_before : ℕ → ℕ
  not_before t = if leb now t then t else now

  unfoldable pub seed_provider : ProviderRow → SeedDb F → SeedDb F × Outcome (Unit {0})
  seed_provider p s =
      run_row (out.trouble p.id) s
        (put_provider s.db (record p { created_at = not_before p.created_at }))

  -- A model of an unknown provider breaks the foreign key, which `OR IGNORE` does not cover.
  unfoldable pub seed_model : ModelRow F → SeedDb F → SeedDb F × Outcome (Unit {0})
  seed_model m s =
      if any (λ x. str_eq x.id m.provider_id) s.db.providers
        || any (λ x. str_eq x.id m.id || str_eq x.client_name m.client_name) s.db.models
      then run_row (out.trouble m.id) s
          (put_model s.db (record m { created_at = not_before m.created_at }))
      else (s, failed (backend out.foreign_key_failed))

  unfoldable pub seed_channel : SeedChannel → SeedDb F → SeedDb F × Outcome (Unit {0})
  seed_channel ch s = run_row (out.trouble ch.id) s (put_channel now s.db ch)

  unfoldable pub seed_mapping : ModelMapping → SeedDb F → SeedDb F × Outcome (Unit {0})
  seed_mapping m s =
      if any (has_id m.channel_id) s.db.channels
      then run_row (out.trouble m.id) s (put_mapping s.db m)
      else (
        s,
        failed
            (backend ("channel not found for mapping " <> m.id <> ": " <> out.foreign_key_failed)),
      )

  abbrev pub parsed_rows :
      {A : Type 0}
      → String
      → String
      → Option (List A)
      → (A → SeedDb F → SeedDb F × Outcome (Unit {0}))
      → SeedDb F
      → SeedDb F × Outcome (Unit {0})
  parsed_rows kind json none f s =
      (s, failed (backend ("invalid " <> kind <> ": " <> out.json_error json)))
  parsed_rows kind json (some rows) f s = each_row f rows s

  unfoldable pub upsert_entry : String → String → SeedDb F → SeedDb F × Outcome (Unit {0})
  upsert_entry name json s =
      if str_eq name "providers"
      then parsed_rows "providers" json (out.parse_providers json) seed_provider s
      else if str_eq name "models"
      then parsed_rows "models" json (out.parse_models json) seed_model s
      else if str_eq name "channels"
      then parsed_rows "channels" json (out.parse_channels json) seed_channel s
      else if str_eq name "modelMappings" || str_eq name "model_mappings"
      then parsed_rows "model_mappings" json (out.parse_mappings json) seed_mapping s
      else (s, failed (backend ("unknown seed entry type: " <> name)))

  unfoldable pub set_metadata : String → String → SeedDb F → SeedDb F × Outcome (Unit {0})
  set_metadata key value s = store (out.trouble key)
    where
      store : Option String → SeedDb F × Outcome (Unit {0})
      store none = (record s { metadata = insert key value s.metadata }, done tt)
      store (some message) = (s, failed (backend message))

  unfoldable pub local_version : SeedDb F → ℕ
  local_version s = get_or 0 (and_then (lookup "version" s.metadata) out.parse_u32)
