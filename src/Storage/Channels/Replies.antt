-- ===== src/Storage/Channels/Replies.antt =====
-- What the methods on one channel answer with.
use agent_proxy_rust.Common.{
  ℕ, ◌≡◌, refl, String, Option, none, some, arith, Option-cases, inl, inr, eq_refl,
}
use agent_proxy_rust.Storage.Types.{Channel}
use agent_proxy_rust.Storage.Sql.{Outcome, done, Conn, pooled, statement}
use agent_proxy_rust.Storage.Db.{Db}
use agent_proxy_rust.Storage.Channels.{
  ChannelPatch, get_channel, update_channel, stored, read_row, row_to_channel, patch_channel,
}
use agent_proxy_rust.Storage.Channels.Laws.{any-find}
use agent_proxy_rust.Storage.Channels.Refinement.{stored-updated}

-- Reading changes no table.
pub reads-tables :
    {S A : Type 0} (refused trouble : Option String) (s : S) (o : Outcome A)
    → (pooled refused s (statement trouble s (s, o))).0 ≡ s
reads-tables none none s o = refl
reads-tables none (some message) s o = refl
reads-tables (some message) trouble s o = refl

module _ {F : Type 0} where
  pub get_channel-tables : (conn : Conn) (id : String) (db : Db F) → (get_channel conn id db).0 ≡ db
  unfolding get_channel
  get_channel-tables conn id db =
      reads-tables conn.refused (conn.trouble 0) db (done (read_row (stored id db)))

  pub get_channel-done :
      (conn : Conn) (id : String) (db : Db F) {o : Option Channel}
      → (get_channel conn id db).1 ≡ done o
      → read_row (stored id db) ≡ o
  unfolding get_channel
  get_channel-done conn id db h = ground arith

  -- An update that succeeds answers with the patched row.
  pub update_channel-done :
      (conn : Conn) (now : ℕ) (id : String) (p : ChannelPatch) (db : Db F) {ch : Channel}
      → (update_channel conn now id p db).1 ≡ done ch
      → (row : Channel) × (stored id db ≡ some row)
        × (row_to_channel (patch_channel now p row) ≡ ch)
  unfolding update_channel patch_channel
  update_channel-done conn now id p db h = elim (Option-cases (stored id db)) [
    | inl absent ↦ ground (arith, h, absent, any-find id db.channels)
    | inr (row, present) ↦ (
      row,
      present,
      ground (
        arith,
        h,
        present,
        any-find id db.channels,
        eq_refl id,
        stored-updated id id (patch_channel now p) db (λ x. refl),
      ),
    )
  ]
