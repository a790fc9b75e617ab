-- ===== src/Router/Load/Laws.antt =====
-- What a router holds after its channels are loaded.
use agent_proxy_rust.Common.{
  ◌≡◌, refl, ap, ◌∙◌, String, Option, none, some, Bool, false, not, ◌&&◌, ◌||◌, List, [], ◌∷◌, map,
  is_blank, is_empty, All, keep_if, trim_slashes, Table, insert, lookup, lookup-insert, arith,
  Bool-cases, inl, inr, str_eq, any, subst,
}
use agent_proxy_rust.Core.Error.{ok, >>=-eq-ok}
use agent_proxy_rust.Storage.Types.{Channel, ModelMapping}
use agent_proxy_rust.Storage.Sql.{Outcome}
use agent_proxy_rust.Router.Protocol.{ProtocolEntry}
use agent_proxy_rust.Router.Protocol.Laws.{ok-injective}
use agent_proxy_rust.Router.Select.{ResolvedChannel, RouterState, has_api_key}
use agent_proxy_rust.Router.Load.{
  LoadJson, ChannelReads, normalize_entry, load_each, load_channels, api_keys, start_router,
  from_storage, protocols_of, or_internal,
}

trim_slashes_twice : (s : String) → trim_slashes (trim_slashes s) ≡ trim_slashes s
trim_slashes_twice String.[] = refl
trim_slashes_twice (String.◌∷◌ c s) = ground (arith, trim_slashes_twice s)

-- An entry as the loop leaves it.
abbrev pub IsNormal : ProtocolEntry → Type 0
IsNormal p = normalize_entry p ≡ p

abbrev not_blank : Option String → Option String
not_blank = keep_if λ path. not (is_blank path)

not_blank_twice : (o : Option String) → not_blank (not_blank o) ≡ not_blank o
not_blank_twice none = refl
not_blank_twice (some path) = ground arith

normalize_twice : (p : ProtocolEntry) → IsNormal (normalize_entry p)
unfolding normalize_entry
normalize_twice p =
    ap (λ u. record p { base_url = u; rewrite_path = not_blank (not_blank p.rewrite_path) })
      (trim_slashes_twice p.base_url)
    ∙ ap (λ o. record p { base_url = trim_slashes p.base_url; rewrite_path = o })
        (not_blank_twice p.rewrite_path)

map-IsNormal : (ps : List ProtocolEntry) → All IsNormal (map normalize_entry ps)
map-IsNormal [] = tt
map-IsNormal (p ∷ ps) = (normalize_twice p, map-IsNormal ps)

not_empty-map :
    (ps : List ProtocolEntry) → is_empty ps ≡ false → is_empty (map normalize_entry ps) ≡ false
not_empty-map [] h = h
not_empty-map (p ∷ ps) h = refl

-- Whether a table has a key for a channel.
abbrev pub has_entry : String → Table String → Bool
has_entry id table = elim (lookup id table) [ some key ↦ not (is_blank key) | none ↦ false ]

module _ {F : Type 0} where
  -- A channel as the router holds it: it has protocols, and their addresses are in normal form.
  abbrev pub IsLoaded : ResolvedChannel F → Type 0
  IsLoaded ch = (is_empty ch.protocols ≡ false) × All IsNormal ch.protocols

  pub load_each-IsLoaded :
      (json : LoadJson F) (mappings : String → Outcome (List ModelMapping)) (chs : List Channel)
      {loaded : List (ResolvedChannel F)}
      → load_each json mappings chs ≡ ok loaded
      → All IsLoaded loaded
  unfolding load_each
  load_each-IsLoaded json mappings [] h = subst (All IsLoaded) (ok-injective h) tt
  load_each-IsLoaded json mappings (ch ∷ chs) h =
      elim (Bool-cases (is_empty (protocols_of json ch))) [
        | inl skipped ↦ load_each-IsLoaded json mappings chs (rw skipped at h)
        | inr present ↦
            let (ms, read, e) =
              >>=-eq-ok (or_internal json.print (mappings ch.id)) _ (rw present at h) in
            let (rest, loaded_rest, f) = >>=-eq-ok (load_each json mappings chs) _ e in
            subst (All IsLoaded) (ok-injective f) (
              (not_empty-map (protocols_of json ch) present, map-IsNormal (protocols_of json ch)),
              load_each-IsLoaded json mappings chs loaded_rest,
            )
      ]

  -- A router that starts holds channels with protocols only, their addresses without a slash at the
  -- end and their rewrite paths not empty.
  pub from_storage-IsLoaded :
      (json : LoadJson F) (reads : ChannelReads) {st : RouterState F}
      → from_storage json reads ≡ ok st
      → All IsLoaded st.channels
  unfolding from_storage load_channels
  from_storage-IsLoaded json reads h =
      let (chs, loaded, e) = >>=-eq-ok (load_channels json reads) _ h in
      let (stored, read, f) = >>=-eq-ok (or_internal json.print reads.list_channels) _ loaded in
      subst (λ st. All IsLoaded st.channels) (ok-injective e)
        (load_each-IsLoaded json reads.list_mappings stored f)

  abbrev pub owns_key : String → ResolvedChannel F → Bool
  owns_key id ch = str_eq ch.channel_id id && not (is_blank ch.api_key)

  api_keys-has_entry :
      (id : String) (json : LoadJson F) (chs : List (ResolvedChannel F)) (table : Table String)
      → has_entry id (api_keys json chs table) ≡ (has_entry id table || any (owns_key id) chs)
  unfolding api_keys
  api_keys-has_entry id json [] table = ground arith
  api_keys-has_entry id json (ch ∷ chs) table = elim (Bool-cases (is_blank ch.api_key)) [
    | inl blank ↦ ground (arith, blank, api_keys-has_entry id json chs table)
    | inr own ↦ ground (
      arith,
      own,
      api_keys-has_entry id json chs (insert ch.channel_id ch.api_key table),
      lookup-insert ch.channel_id id ch.api_key table,
    )
  ]

  -- In a router that starts, a channel has a key exactly if a loaded channel of its id has one.
  pub start_router-has_api_key :
      (json : LoadJson F) (chs : List (ResolvedChannel F)) (id : String)
      → has_api_key (start_router json chs) id ≡ any (owns_key id) chs
  unfolding has_api_key lookup
  start_router-has_api_key json chs id = ground (arith, api_keys-has_entry id json chs [])
