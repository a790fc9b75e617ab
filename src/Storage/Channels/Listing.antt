-- ===== src/Storage/Channels/Listing.antt =====
-- What `list_channels` answers.
use agent_proxy_rust.Common.{
  ℕ, ◌≡◌, String, none, true, false, List, [], ◌∷◌, map, All, arith, is_blank, ◌∙◌,
}
use agent_proxy_rust.Storage.Types.{Channel, as_str}
use agent_proxy_rust.Storage.Sql.{done, Conn, order_by}
use agent_proxy_rust.Storage.Sql.Order.{
  Rises, order_by-Rises, text_le_total, text_le_trans, total_of, total-order_by, total_of-map,
}
use agent_proxy_rust.Storage.Db.{Db}
use agent_proxy_rust.Storage.Channels.{list_channels, row_to_channel, priority_le}

priority_le_total : (a b : Channel) → priority_le a b ≡ false → priority_le b a ≡ true
priority_le_total a b h = ground (arith, text_le_total a.id b.id)

priority_le_trans :
    (a b c : Channel) → priority_le a b ≡ true → priority_le b c ≡ true → priority_le a c ≡ true
priority_le_trans a b c h k = ground (arith, text_le_trans a.id b.id c.id)

rises_read :
    (x : Channel) (xs : List Channel)
    → All (λ y. priority_le x y ≡ true) xs
    → All (λ y. priority_le (row_to_channel x) y ≡ true) (map row_to_channel xs)
unfolding row_to_channel
rises_read x [] h = tt
rises_read x (y ∷ ys) h = (h.0, rises_read x ys h.1)

read_Rises : (xs : List Channel) → Rises priority_le xs → Rises priority_le (map row_to_channel xs)
read_Rises [] r = tt
read_Rises (x ∷ xs) r = (rises_read x xs r.0, read_Rises xs r.1)

-- A channel without a key reads as unavailable.
abbrev pub IsMarked : Channel → Type 0
IsMarked ch = is_blank ch.api_key ≡ true → ch.health_status ≡ "Unavailable"

read_IsMarked : (xs : List Channel) → All IsMarked (map row_to_channel xs)
unfolding row_to_channel as_str
read_IsMarked [] = tt
read_IsMarked (x ∷ xs) = ((λ h. ground (arith, h)), read_IsMarked xs)

module _ {F : Type 0} where
  listed :
      (conn : Conn) (db : Db F) {chs : List Channel}
      → (list_channels conn none db).1 ≡ done chs
      → map row_to_channel (order_by priority_le db.channels) ≡ chs
  unfolding list_channels
  listed conn db h = ground arith

  -- The list of all channels is in the order of the priorities, then of the ids; for any count of
  -- stored rows by their ids it has as many; and a channel without a key is marked unavailable.
  pub list_channels_lem :
      (conn : Conn) (db : Db F) {chs : List Channel}
      → (list_channels conn none db).1 ≡ done chs
      → Rises priority_le chs
        × ((weight : String → ℕ)
            → total_of (λ ch. weight ch.id) chs ≡ total_of (λ ch. weight ch.id) db.channels)
        × All IsMarked chs
  unfolding row_to_channel
  list_channels_lem conn db h =
      let rows = order_by priority_le db.channels in
      rw (← listed conn db h) (
        read_Rises rows
            (order_by-Rises priority_le priority_le_total priority_le_trans db.channels),
        (λ weight.
            total_of-map (λ ch. weight ch.id) row_to_channel rows
            ∙ total-order_by priority_le (λ ch. weight ch.id) db.channels),
        read_IsMarked rows,
      )
