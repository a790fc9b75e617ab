-- ===== src/App/Admin/Keys/Laws.antt =====
-- A key that is set and a key that is taken away, as the router sees them.
use agent_proxy_rust.Common.{
  ◌≡◌, refl, String, Option, none, some, true, false, not, ◌&&◌, [], ◌∷◌, Table, lookup, insert,
  str_eq, is_blank, arith, eq_refl, any-mem, lookup-insert_self,
}
use mathlib.Core.List.{Memᴰ}
use agent_proxy_rust.Router.Select.{ResolvedChannel, RouterState, has_api_key}
use agent_proxy_rust.Router.Handler.{key_of}
use agent_proxy_rust.Storage.Sql.{Outcome, done, failed}
use agent_proxy_rust.Storage.Channels.{
  set_channel_api_key as store_channel_api_key, get_channel as fetch_channel,
}
use agent_proxy_rust.App.Admin.Answers.{
  AdminState, Call, Outside, ApiResult, json, try_storage, AppError, found, with_db, storage_error,
}
use agent_proxy_rust.Core.Error.{◌<>◌}
use agent_proxy_rust.Storage.Types.{Channel, StorageError}
use agent_proxy_rust.Storage.Db.{Db}
use agent_proxy_rust.App.Admin.Keys.{key_probed, remove, set_channel_api_key}

lookup-remove_self :
    {V : Type 0} (key : String) (table : Table V) → lookup key (remove key table) ≡ none
unfolding lookup
lookup-remove_self key [] = refl
lookup-remove_self key ((own, value) ∷ rest) = ground (arith, lookup-remove_self key rest)

-- The router's view of the state that it shares with the admin API.
abbrev pub router_of : {F : Type 0} → RouterState F → AdminState F → RouterState F
router_of router st = record router {
  channels = st.channels;
  health = st.health_map;
  channel_api_keys = st.api_key_map;
}

module _ {F : Type 0} (out : Outside F) where
  -- A key that is taken away is used again: after a call with the empty key that is answered, every
  -- channel that the router had loaded with a key of its own still counts as one with a key, and the
  -- key that was loaded is sent upstream.
  pub set_channel_api_key_revokes_not :
      (call : Call) (id : String) (router : RouterState F) (st : AdminState F)
      (ch : ResolvedChannel F)
      → (set_channel_api_key out call id "" st).1 ≡ json none
      → Memᴰ ch st.channels
      → ch.channel_id ≡ id
      → is_blank ch.api_key ≡ false
      → let router' = router_of router (set_channel_api_key out call id "" st).0 in
        (has_api_key router' id ≡ true) × (key_of router' ch ≡ ch.api_key)
  unfolding set_channel_api_key has_api_key
  set_channel_api_key_revokes_not call id router st ch answered loaded own key =
      let owner : (str_eq ch.channel_id id && not (is_blank ch.api_key)) ≡ true =
        ground (arith, own, key, eq_refl id) in
      ground (
        arith,
        answered,
        own,
        lookup-remove_self id st.api_key_map,
        any-mem (λ c. str_eq c.channel_id id && not (is_blank c.api_key)) st.channels loaded owner,
      )

  -- Steps that leave the keys as they are.
  found-keys :
      {A B : Type 0} (resource : String) (st : AdminState F) (o : Option A)
      (next : A → AdminState F × ApiResult B)
      → ((a : A) → (next a).0.api_key_map ≡ st.api_key_map)
      → (found resource st o next).0.api_key_map ≡ st.api_key_map
  found-keys resource st none next h = refl
  found-keys resource st (some a) next h = h a

  try_storage-keys :
      {A B : Type 0} (describe : StorageError → AppError) (st : AdminState F) (r : Db F × Outcome A)
      (next : AdminState F → A → AdminState F × ApiResult B)
      → ((db : Db F) (a : A) → (next (with_db st db) a).0.api_key_map ≡ st.api_key_map)
      → (try_storage describe st r next).0.api_key_map ≡ st.api_key_map
  try_storage-keys describe st (db, failed e) next h = refl
  try_storage-keys describe st (db, done a) next h = h db a

  key_probed-keys :
      (call : Call) (id : String) (st : AdminState F) (channel : Channel)
      → (key_probed out call id st channel).0.api_key_map ≡ st.api_key_map
  key_probed-keys call id st channel = ground arith

  set_channel_api_key-keys :
      (call : Call) (id key : String) (st : AdminState F)
      → (store_channel_api_key (call.conn 0) call.now id key st.db).1 ≡ done tt
      → is_blank key ≡ false
      → (set_channel_api_key out call id key st).0.api_key_map ≡ insert id key st.api_key_map
  unfolding set_channel_api_key
  set_channel_api_key-keys call id key st stored given =
      let db' = (store_channel_api_key (call.conn 0) call.now id key st.db).0 in
      let keyed = record st { db = db'; api_key_map = insert id key st.api_key_map } in
      rw (stored, given)
        (try_storage-keys storage_error keyed (fetch_channel (call.conn 2) id db')
          (λ st'' channel. found ("channel " <> id) st'' channel (key_probed out call id st''))
          (λ db'' o.
            found-keys ("channel " <> id) (with_db keyed db'') o
              (key_probed out call id (with_db keyed db''))
              (key_probed-keys call id (with_db keyed db''))))

  -- A key that is set is the one that the router sends for the channel, from the call on and whatever
  -- the probe says.
  pub set_channel_api_key_used :
      (call : Call) (id key : String) (router : RouterState F) (st : AdminState F)
      (ch : ResolvedChannel F)
      → (store_channel_api_key (call.conn 0) call.now id key st.db).1 ≡ done tt
      → is_blank key ≡ false
      → ch.channel_id ≡ id
      → key_of (router_of router (set_channel_api_key out call id key st).0) ch ≡ key
  unfolding set_channel_api_key
  set_channel_api_key_used call id key router st ch stored given own =
      let keys = set_channel_api_key-keys call id key st stored given in
      ground (arith, keys, own, lookup-insert_self id key st.api_key_map)
