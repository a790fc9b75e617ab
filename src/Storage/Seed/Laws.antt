-- ===== src/Storage/Seed/Laws.antt =====
-- What a refresh leaves of a channel, and the version.
use agent_proxy_rust.Core.Error.{◌<>◌}
use agent_proxy_rust.Storage.Sql.Laws.{if-keeps}
use agent_proxy_rust.Common.{
  ℕ, ◌≤◌, ◌≡◌, refl, String, Option, none, some, Bool, true, false, not, List, [], ◌∷◌,
  if◌then◌else◌, str_eq, leb, arith, eq_iff, map_option, Table, lookup, ◌≢◌,
}
use agent_proxy_rust.Storage.Types.{Channel, SeedManifest, SeedManifestEntry, ModelMapping}
use agent_proxy_rust.Storage.Sql.{Outcome, failed, done}
use agent_proxy_rust.Storage.Db.{Db, ProviderRow, ModelRow}
use agent_proxy_rust.Storage.Channels.{stored}
use agent_proxy_rust.Storage.Channels.Laws.{find-update_id, find-append_id, any-find}
use agent_proxy_rust.Storage.Seed.{
  SeedChannel, SeedDb, SeedOutside, seeded_channel, reseeded_channel, put_channel, seed_channel,
  each_row, and_done, local_version, parsed_rows, set_metadata, seed_provider, seed_model,
  seed_mapping, upsert_entry,
}
use agent_proxy_rust.Storage.Seed.Refresh.{
  build_status, refresh_to, seed_refresh, resolve_seed_url, apply_body, set_all, same_hash, noted,
  refresh_entries, fetch_and_apply_entry, with_status, closing, refresh_from,
}

-- The columns that only the operator and the proxy write once a channel is there: its key, whether it
-- is enabled, the forced protocol, its health, cooldown and failures, and its time of creation.
abbrev pub Settings : Type 0
Settings = String × Bool × Option String × String × Option String × ℕ × ℕ

abbrev pub settings : Channel → Settings
settings ch = (
  ch.api_key, ch.enabled, ch.force_protocol, ch.health_status, ch.cooldown_until,
  ch.consecutive_failures, ch.created_at,
)

module _ {F : Type 0} where
  put_channel-settings :
      (now : ℕ) (id : String) (db : Db F) (ch : SeedChannel) {own : Settings}
      → map_option settings (stored id db) ≡ some own
      → map_option settings (stored id (put_channel now db ch)) ≡ some own
  unfolding put_channel reseeded_channel seeded_channel
  put_channel-settings now id db ch h = ground (
    arith,
    h,
    any-find ch.id db.channels,
    find-update_id id ch.id (reseeded_channel now ch) db.channels (λ x. refl),
    find-append_id id db.channels (seeded_channel now ch),
    eq_iff ch.id id,
  )

-- What every row that is seeded keeps of the tables, every entry and a whole refresh keep.
module _ {F : Type 0} (out : SeedOutside F) (now : ℕ) (P : Db F → Type 0) where
  and_done-keeps :
      (r : SeedDb F × Outcome (Unit {0})) (next : SeedDb F → SeedDb F × Outcome (Unit {0}))
      → P r.0.db
      → ((s : SeedDb F) → P s.db → P (next s).0.db)
      → P (and_done r next).0.db
  and_done-keeps (s, failed e) next p h = p
  and_done-keeps (s, done u) next p h = h s p

  each_row-keeps :
      {A : Type 0} (f : A → SeedDb F → SeedDb F × Outcome (Unit {0})) (xs : List A) (s : SeedDb F)
      → ((x : A) (t : SeedDb F) → P t.db → P (f x t).0.db)
      → P s.db
      → P (each_row f xs s).0.db
  each_row-keeps f [] s h p = p
  each_row-keeps f (x ∷ xs) s h p =
      and_done-keeps (f x s) (each_row f xs) (h x s p) (λ t q. each_row-keeps f xs t h q)

  parsed_rows-keeps :
      {A : Type 0} (kind body : String) (rows : Option (List A))
      (f : A → SeedDb F → SeedDb F × Outcome (Unit {0})) (s : SeedDb F)
      → ((x : A) (t : SeedDb F) → P t.db → P (f x t).0.db)
      → P s.db
      → P (parsed_rows out now kind body rows f s).0.db
  parsed_rows-keeps kind body none f s h p = p
  parsed_rows-keeps kind body (some rows) f s h p = each_row-keeps f rows s h p

  set_metadata-keeps :
      (key value : String) (s : SeedDb F) → P s.db → P (set_metadata out now key value s).0.db
  unfolding set_metadata
  set_metadata-keeps key value s p = ground (arith, p)

  set_all-keeps :
      (entries : Table String) (s : SeedDb F) → P s.db → P (set_all out now entries s).0.db
  set_all-keeps [] s p = p
  set_all-keeps ((key, value) ∷ rest) s p =
      and_done-keeps (set_metadata out now key value s) (set_all out now rest)
        (set_metadata-keeps key value s p) (λ t q. set_all-keeps rest t q)

  module _
      (of_provider : (x : ProviderRow) (t : SeedDb F) → P t.db → P (seed_provider out now x t).0.db)
      (of_model : (x : ModelRow F) (t : SeedDb F) → P t.db → P (seed_model out now x t).0.db)
      (of_channel : (x : SeedChannel) (t : SeedDb F) → P t.db → P (seed_channel out now x t).0.db)
      (of_mapping : (x : ModelMapping) (t : SeedDb F)
        → P t.db
        → P (seed_mapping out now x t).0.db) where
    upsert_entry-keeps :
        (name body : String) (s : SeedDb F) → P s.db → P (upsert_entry out now name body s).0.db
    unfolding upsert_entry
    upsert_entry-keeps name body s p = ground (
      arith,
      p,
      parsed_rows-keeps "providers" body (out.parse_providers body) (seed_provider out now) s
          of_provider p,
      parsed_rows-keeps "models" body (out.parse_models body) (seed_model out now) s of_model p,
      parsed_rows-keeps "channels" body (out.parse_channels body) (seed_channel out now) s
          of_channel p,
      parsed_rows-keeps "model_mappings" body (out.parse_mappings body) (seed_mapping out now) s
          of_mapping p,
    )

    apply_body-keeps :
        (name : String) (entry : SeedManifestEntry) (body : Outcome String) (s : SeedDb F)
        → P s.db
        → P (apply_body out now name entry body s).0.db
    apply_body-keeps name entry (failed e) s p = p
    apply_body-keeps name entry (done body) s p =
        if-keeps {S = SeedDb F} (λ t. P t.db) (not (str_eq (out.sha256 body) entry.sha256)) _ _
          (λ wrong. p)
          (λ right.
            and_done-keeps (upsert_entry out now name body s)
              (set_metadata out now (name <> ":sha256") entry.sha256)
              (upsert_entry-keeps name body s p)
              (λ t q. set_metadata-keeps (name <> ":sha256") entry.sha256 t q))

    noted-keeps :
        (name : String) (r : SeedDb F × Outcome (Unit {0})) (errors : List String)
        → P r.0.db
        → P (noted out now name r errors).0.db
    noted-keeps name (s, done u) errors p = p
    noted-keeps name (s, failed e) errors p = p

    refresh_entries-keeps :
        (base : String) (entries : Table SeedManifestEntry) (acc : SeedDb F × List String)
        → P acc.0.db
        → P (refresh_entries out now base entries acc).0.db
    unfolding refresh_entries fetch_and_apply_entry
    refresh_entries-keeps base [] acc p = p
    refresh_entries-keeps base ((name, entry) ∷ rest) (s, errors) p =
        refresh_entries-keeps base rest _
          (step (same_hash out now (lookup (name <> ":sha256") s.metadata) entry.sha256))
      where
        step :
            (b : Bool)
            → P
                (if b
                  then (s, errors)
                  else noted out now name
                      (fetch_and_apply_entry out now base name entry s)
                      errors).0.db
        step true = p
        step false =
            noted-keeps name (fetch_and_apply_entry out now base name entry s) errors
              (apply_body-keeps name entry (out.fetch (base <> "/" <> entry.file)) s p)

    with_status-keeps :
        (remote : Option SeedManifest) (r : SeedDb F × Outcome (Unit {0}))
        → P r.0.db
        → P (with_status out now remote r).0.db
    with_status-keeps remote (s, failed e) p = p
    with_status-keeps remote (s, done u) p = p

    refresh_to-keeps :
        (clock base : String) (manifest : Outcome SeedManifest) (s : SeedDb F)
        → P s.db
        → P (refresh_to out now clock base manifest s).0.db
    refresh_to-keeps clock base (failed e) s p = p
    refresh_to-keeps clock base (done manifest) s p =
        if-keeps {S = SeedDb F} (λ t. P t.db) (leb manifest.version (local_version out now s)) _ _
          (λ old. p)
          (λ new.
            let acc = refresh_entries out now base manifest.entries (s, []) in
            with_status-keeps (some manifest)
              (set_all out now (closing out now clock base manifest acc.1) acc.0)
              (set_all-keeps (closing out now clock base manifest acc.1) acc.0
                (refresh_entries-keeps base manifest.entries (s, []) p)))

    seed_refresh-keeps :
        (url variable : Option String) (clock : String) (s : SeedDb F)
        → P s.db
        → P (seed_refresh out now url variable clock s).0.db
    unfolding seed_refresh
    seed_refresh-keeps url variable clock s p = from (resolve_seed_url url variable)
      where
        from : (o : Outcome String) → P (refresh_from out now clock o s).0.db
        from (failed e) = p
        from (done base) = refresh_to-keeps clock base (out.fetch_manifest base) s p

module _ {F : Type 0} (out : SeedOutside F) (now : ℕ) where
  -- Whatever a refresh fetches from a remote and wherever it stops, a channel that was there keeps its
  -- key, whether it is enabled, its forced protocol, its health, cooldown and failures in a row, and
  -- its time of creation.
  pub seed_refresh-settings :
      (url variable : Option String) (clock id : String) (s : SeedDb F) {own : Settings}
      → map_option settings (stored id s.db) ≡ some own
      → map_option settings (stored id (seed_refresh out now url variable clock s).0.db) ≡ some own
  unfolding seed_provider seed_model seed_channel seed_mapping
  seed_refresh-settings url variable clock id s {own} h =
      seed_refresh-keeps out now (λ db. map_option settings (stored id db) ≡ some own)
        (λ x t p. ground (arith, p)) (λ x t p. ground (arith, p))
        (λ x t p. ground (arith, p, put_channel-settings now id t.db x p))
        (λ x t p. ground (arith, p)) url variable clock s h

  -- A manifest that is not newer than the data changes nothing, and the answer offers no update.
  pub refresh_to_older :
      (clock base : String) (manifest : SeedManifest) (s : SeedDb F)
      → manifest.version ≤ local_version out now s
      → (refresh_to out now clock base (done manifest) s
          ≡ (s, done (build_status out now s (some manifest))))
        × ((build_status out now s (some manifest)).update_available ≡ false)
  unfolding build_status
  refresh_to_older clock base manifest s old =
      let e : leb manifest.version (local_version out now s) ≡ true = ground arith in
      (rw e refl, ground arith)

  -- A body whose hash is not that of the manifest is not applied.
  pub apply_body_tampered :
      (name body : String) (entry : SeedManifestEntry) (s : SeedDb F)
      → out.sha256 body ≢ entry.sha256
      → (apply_body out now name entry (done body) s).0 ≡ s
  apply_body_tampered name body entry s differs =
      let e : str_eq (out.sha256 body) entry.sha256 ≡ false =
        ground (arith, differs, eq_iff (out.sha256 body) entry.sha256) in
      rw e refl
