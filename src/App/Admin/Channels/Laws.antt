-- ===== src/App/Admin/Channels/Laws.antt =====
-- A forced protocol that is accepted is one that the channel speaks.
use agent_proxy_rust.Common.{
  ℕ, ◌≡◌, refl, sym, ap, subst, ◌∙◌, String, Option, none, some, true, List, arith, get_or,
  Option-cases, Bool-cases, inl, inr,
}
use agent_proxy_rust.Storage.Types.{Channel, StorageError}
use agent_proxy_rust.Storage.Sql.{Outcome, done, failed}
use agent_proxy_rust.Storage.Db.{Db}
use agent_proxy_rust.Storage.Channels.{
  ChannelPatch, get_channel as fetch_channel, stored, read_row, row_to_channel, patch_channel,
}
use agent_proxy_rust.Storage.Channels.Replies.{
  get_channel-tables, get_channel-done, update_channel-done,
}
use agent_proxy_rust.Router.Protocol.{ProtocolEntry}
use agent_proxy_rust.App.Admin.Answers.{
  AdminState, Call, Outside, ApiResult, AppError, refused, json, try_storage, found, with_db,
  storage_error,
}
use agent_proxy_rust.App.Admin.Channels.{
  update_channel, supports, check_forced, check_text, refuse_or, write_channel,
}

module _ {F : Type 0} (out : Outside F) where
  -- The text of a channel's protocols parses, and the protocol is in it.
  abbrev pub Speaks : String → String → Type 0
  Speaks wanted text =
      (entries : List ProtocolEntry) × (out.json.parse_protocols text ≡ some entries)
      × (supports wanted entries ≡ true)

  -- What the steps of a handler that answers went through.
  answered_storage :
      {A B : Type 0} (describe : StorageError → AppError) (st : AdminState F) (r : Db F × Outcome A)
      (next : AdminState F → A → AdminState F × ApiResult B) {b : B}
      → (try_storage describe st r next).1 ≡ json b
      → (a : A) × (r.1 ≡ done a) × ((next (with_db st r.0) a).1 ≡ json b)
  answered_storage describe st (db, failed e) next h = cc
  answered_storage describe st (db, done a) next h = (a, refl, h)

  answered_found :
      {A B : Type 0} (resource : String) (st : AdminState F) (o : Option A)
      (next : A → AdminState F × ApiResult B) {b : B}
      → (found resource st o next).1 ≡ json b
      → (a : A) × (o ≡ some a) × ((next a).1 ≡ json b)
  answered_found resource st none next h = cc
  answered_found resource st (some a) next h = (a, refl, h)

  answered_check :
      {A : Type 0} (wanted text : String) (st : AdminState F) (next : AdminState F × ApiResult A)
      {a : A}
      → (refuse_or out (check_text out wanted text) st next).1 ≡ json a
      → Speaks wanted text × (next.1 ≡ json a)
  answered_check wanted text st next h = elim (Option-cases (out.json.parse_protocols text)) [
    | inl bad ↦ let clash : refused _ ≡ json _ = rw bad at h in cc
    | inr (entries, parsed) ↦ elim (Bool-cases (supports wanted entries)) [
      | inl in_it ↦ ((entries, parsed, in_it), rw (parsed, in_it) at h)
      | inr not_in ↦ let clash : refused _ ≡ json _ = rw (parsed, not_in) at h in cc
    ]
  ]

  json_injective : {A : Type 0} {a b : A} → json a ≡ json b → a ≡ b
  json_injective h = cc

  -- The update alone answers with the patched row.
  answered_write :
      (call : Call) (id : String) (body : ChannelPatch) (st : AdminState F) {ch : Channel}
      → (write_channel out call id body st).1 ≡ json ch
      → (row : Channel) × (stored id st.db ≡ some row)
        × (row_to_channel (patch_channel call.now body row) ≡ ch)
  answered_write call id body st h =
      let (updated, stored_it, e) = answered_storage _ st _ _ h in
      let (row, present, same) =
        update_channel-done (call.conn 1) call.now id body st.db stored_it in
      (row, present, same ∙ json_injective e)

  patched-protocols :
      (now : ℕ) (body : ChannelPatch) (row : Channel) {ch : Channel} (given : Option String)
      → row_to_channel (patch_channel now body row) ≡ ch
      → body.protocols ≡ given
      → get_or row.protocols given ≡ ch.protocols
  unfolding row_to_channel patch_channel
  patched-protocols now body row given same e =
      ap (get_or row.protocols) (sym e) ∙ ap (λ c. c.protocols) same

  read_row-protocols :
      (o : Option Channel) {row current : Channel}
      → o ≡ some row
      → read_row o ≡ some current
      → current.protocols ≡ row.protocols
  unfolding row_to_channel
  read_row-protocols none e h = cc
  read_row-protocols (some r) e h = ground (arith, e, h)

  forced-Speaks :
      (call : Call) (id wanted : String) (given : Option String) (body : ChannelPatch)
      (st : AdminState F) {ch : Channel}
      → (check_forced out (some wanted) given call id st (write_channel out call id body)).1
        ≡ json ch
      → body.protocols ≡ given
      → Speaks wanted ch.protocols
  forced-Speaks call id wanted (some text) body st h e =
      let (speaks, w) = answered_check wanted text st (write_channel out call id body st) h in
      let (row, present, same) = answered_write call id body st w in
      subst (Speaks wanted) (patched-protocols call.now body row (some text) same e) speaks
  forced-Speaks call id wanted none body st h e =
      let (o, read, f) =
        answered_storage storage_error st (fetch_channel (call.conn 0) id st.db) _ h in
      let st' = with_db st (fetch_channel (call.conn 0) id st.db).0 in
      let (current, is_current, g) = answered_found _ st' o _ f in
      let (speaks, w) =
        answered_check wanted current.protocols st' (write_channel out call id body st') g in
      let (row, present, same) = answered_write call id body st' w in
      let own : stored id st.db ≡ some row =
        ap (stored id) (sym (get_channel-tables (call.conn 0) id st.db)) ∙ present in
      let kept =
        read_row-protocols (stored id st.db) own
          (get_channel-done (call.conn 0) id st.db read ∙ is_current) in
      subst (Speaks wanted) (kept ∙ patched-protocols call.now body row none same e) speaks

  -- When an update that forces a protocol is answered, the answered channel's protocols parse and
  -- the forced one is among them, whether the call changes the protocols too or not.
  pub update_channel-Speaks :
      (call : Call) (id wanted : String) (body : ChannelPatch) (st : AdminState F) {ch : Channel}
      → (update_channel out call id body st).1 ≡ json ch
      → body.force_protocol ≡ some wanted
      → Speaks wanted ch.protocols
  unfolding update_channel
  update_channel-Speaks call id wanted body st {ch} h forced =
      let h' =
        subst
          (λ o.
            (check_forced out o body.protocols call id st (write_channel out call id body)).1
            ≡ json ch)
          forced h in
      forced-Speaks call id wanted body.protocols body st h' refl
