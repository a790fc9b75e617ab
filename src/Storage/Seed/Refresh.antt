-- ===== src/Storage/Seed/Refresh.antt =====
-- `seed_init`, `seed_refresh`, `seed_check_remote` and the status of crates/storage-sqlite/src/seed.rs.
use agent_proxy_rust.Core.Error.{◌<>◌}
use agent_proxy_rust.Common.{
  ℕ, String, Option, none, some, Bool, true, false, not, List, [], ◌∷◌, ◌++◌, map, if◌then◌else◌,
  str_eq, leb, ltb, get_or, and_then, Table, lookup, is_empty, is_blank, keep_if, map_option,
  trim_slashes,
}
use agent_proxy_rust.Storage.Types.{
  SeedManifest, SeedManifestEntry, SeedStatus, SeedEntryStatus, backend,
}
use agent_proxy_rust.Storage.Sql.{Outcome, failed, done}
use agent_proxy_rust.Storage.Seed.{
  SeedDb, SeedOutside, and_done, upsert_entry, set_metadata, local_version,
}

-- An explicit address wins over that of the environment, which must not be empty.
unfoldable pub resolve_seed_url : Option String → Option String → Outcome String
resolve_seed_url (some url) variable = done (trim_slashes url)
resolve_seed_url none variable =
    elim (keep_if (λ url. not (is_blank url)) (map_option trim_slashes variable)) [
      | some url ↦ done url
      | none ↦ failed (backend "no seed URL provided — set AGENT_PROXY_SEED_URL or pass a URL")
    ]

abbrev pub entry_names : List String
entry_names = "providers" ∷ "models" ∷ "channels" ∷ "model_mappings" ∷ []

abbrev pub differs : Option String → Option String → Bool
differs (some local) (some remote) = not (str_eq local remote)
differs none (some remote) = true
differs local none = false

abbrev pub joined : List String → String
joined [] = ""
joined (e ∷ es) = if is_empty es then e else e <> "; " <> joined es

module _ {F : Type 0} (out : SeedOutside F) (now : ℕ) where
  abbrev pub entry_status : SeedDb F → Option SeedManifest → String → SeedEntryStatus
  entry_status s remote name =
      let local = lookup (name <> ":sha256") s.metadata in
      let far = map_option (λ e. e.sha256) (and_then remote λ m. lookup name m.entries) in
      record { name = name; local_sha256 = local; remote_sha256 = far; changed = differs local far }

  abbrev pub is_newer : ℕ → Option SeedManifest → Bool
  is_newer version none = false
  is_newer version (some m) = ltb version m.version

  unfoldable pub build_status : SeedDb F → Option SeedManifest → SeedStatus
  build_status s remote = record {
    local_version = local_version out now s;
    remote_version = map_option (λ m. m.version) remote;
    update_available = is_newer (local_version out now s) remote;
    source = get_or "unknown" (lookup "source" s.metadata);
    entries = map (entry_status s remote) entry_names;
    last_refresh_at = lookup "last_refresh_at" s.metadata;
    last_error = keep_if (λ e. not (is_blank e)) (lookup "last_error" s.metadata);
  }

  -- The body of an entry, once it is there.
  abbrev pub apply_body :
      String → SeedManifestEntry → Outcome String → SeedDb F → SeedDb F × Outcome (Unit {0})
  apply_body name entry (failed e) s = (s, failed e)
  apply_body name entry (done body) s =
      if not (str_eq (out.sha256 body) entry.sha256)
      then (
        s,
        failed (
            backend (
              "SHA-256 mismatch for "
              <> name
              <> ": expected "
              <> entry.sha256
              <> ", got "
              <> out.sha256 body)),
      )
      else and_done (upsert_entry out now name body s)
          (set_metadata out now (name <> ":sha256") entry.sha256)

  unfoldable pub fetch_and_apply_entry :
      String → String → SeedManifestEntry → SeedDb F → SeedDb F × Outcome (Unit {0})
  fetch_and_apply_entry base_url name entry s =
      apply_body name entry (out.fetch (base_url <> "/" <> entry.file)) s

  abbrev pub same_hash : Option String → String → Bool
  same_hash none sha256 = false
  same_hash (some own) sha256 = str_eq own sha256

  abbrev pub noted : String → SeedDb F × Outcome (Unit {0}) → List String → SeedDb F × List String
  noted name (s, done u) errors = (s, errors)
  noted name (s, failed e) errors = (s, errors ++ ((name <> ": " <> out.print_error e) ∷ []))

  -- The loop over the entries, with the errors so far.
  unfoldable pub refresh_entries :
      String → Table SeedManifestEntry → SeedDb F × List String → SeedDb F × List String
  refresh_entries base_url [] acc = acc
  refresh_entries base_url ((name, entry) ∷ rest) (s, errors) = refresh_entries base_url rest (
      if same_hash (lookup (name <> ":sha256") s.metadata) entry.sha256
      then (s, errors)
      else noted name (fetch_and_apply_entry base_url name entry s) errors)

  abbrev pub set_all : Table String → SeedDb F → SeedDb F × Outcome (Unit {0})
  set_all [] s = (s, done tt)
  set_all ((key, value) ∷ rest) s = and_done (set_metadata out now key value s) (set_all rest)

  -- What the end of a refresh writes: the version only when every entry went well.
  abbrev pub closing : String → String → SeedManifest → List String → Table String
  closing clock base_url manifest errors =
      if is_empty errors
      then ("version", out.print_u32 manifest.version)
        ∷ ("last_refresh_at", clock)
        ∷ ("last_error", "")
        ∷ ("source", "remote")
        ∷ ("remote_url", base_url)
        ∷ []
      else ("last_error", joined errors) ∷ []

  abbrev pub with_status :
      Option SeedManifest → SeedDb F × Outcome (Unit {0}) → SeedDb F × Outcome SeedStatus
  with_status remote (s, failed e) = (s, failed e)
  with_status remote (s, done u) = (s, done (build_status s remote))

  abbrev pub close_refresh :
      String → String → SeedManifest → SeedDb F × List String → SeedDb F × Outcome SeedStatus
  close_refresh clock base_url manifest (s, errors) =
      with_status (some manifest) (set_all (closing clock base_url manifest errors) s)

  abbrev pub refresh_to :
      String → String → Outcome SeedManifest → SeedDb F → SeedDb F × Outcome SeedStatus
  refresh_to clock base_url (failed e) s = (s, failed e)
  refresh_to clock base_url (done manifest) s =
      if leb manifest.version (local_version out now s)
      then (s, done (build_status s (some manifest)))
      else close_refresh clock base_url manifest (refresh_entries base_url manifest.entries (s, []))

  abbrev pub refresh_from : String → Outcome String → SeedDb F → SeedDb F × Outcome SeedStatus
  refresh_from clock (failed e) s = (s, failed e)
  refresh_from clock (done base_url) s = refresh_to clock base_url (out.fetch_manifest base_url) s

  -- With the address given, that of the environment, and the text of the clock.
  unfoldable pub seed_refresh :
      Option String → Option String → String → SeedDb F → SeedDb F × Outcome SeedStatus
  seed_refresh url variable clock s = refresh_from clock (resolve_seed_url url variable) s

  unfoldable pub seed_status : SeedDb F → SeedStatus
  seed_status s = build_status s none

  -- The four embedded entries, then their hashes and the source.
  unfoldable pub apply_all_entries : Table String → SeedDb F → SeedDb F × Outcome (Unit {0})
  apply_all_entries entries s = and_done (apply entries s) (set_all (hashes entries))
    where
      apply : Table String → SeedDb F → SeedDb F × Outcome (Unit {0})
      apply [] s = (s, done tt)
      apply ((name, json) ∷ rest) s = and_done (upsert_entry out now name json s) (apply rest)

      hashes : Table String → Table String
      hashes [] = ("source", "embedded") ∷ []
      hashes ((name, json) ∷ rest) = (name <> ":sha256", out.sha256 json) ∷ hashes rest

  -- Only a database without a version is initialised.
  unfoldable pub seed_init : Table String → ℕ → SeedDb F → SeedDb F × Outcome SeedStatus
  seed_init embedded version s =
      if ltb 0 (local_version out now s)
      then (s, done (seed_status s))
      else with_status none (
          and_done (apply_all_entries embedded s)
            (set_metadata out now "version" (out.print_u32 version)))
