-- ===== src/Storage/Channels/Health.antt =====
-- The failures that are recorded against a channel, and what they make of its health.
use agent_proxy_rust.Common.{
  ℕ, zero, suc, ◌≤◌, ◌<◌, ◌≡◌, refl, ap, ◌∙◌, String, Option, none, some, map_option, eq_refl, List,
  [], ◌∷◌, length, arith,
}
use agent_proxy_rust.Storage.Types.{Channel, as_str}
use agent_proxy_rust.Storage.Sql.{Conn}
use agent_proxy_rust.Storage.Db.{Db}
use agent_proxy_rust.Storage.Channels.{
  stored, mark_channel_healthy, record_channel_failure, status_of_failures, cooldown_of_failures,
  bump_row, settle_row, reset_row,
}
use agent_proxy_rust.Storage.Channels.Spec.{failed_row}
use agent_proxy_rust.Storage.Channels.Refinement.{rows_of-fail, rows_of-update_one}

-- The three columns of a row that failures change.
abbrev pub health_of : Channel → ℕ × String × Option String
health_of row = (row.consecutive_failures, row.health_status, row.cooldown_until)

-- A connection on which every statement is carried out.
pub record IsUp (conn : Conn) : Type 0 where
  pub pool : conn.refused ≡ none
  pub statements : (n : ℕ) → conn.trouble n ≡ none

-- What the schema says of a channel with so many failures in a row: none is healthy, one or two are
-- degraded, three or more cool down until the time that came with the last one.
abbrev pub health_after : ℕ → String → ℕ × String × Option String
health_after zero later = (0, "Healthy", none)
health_after (suc zero) later = (1, "Degraded", none)
health_after (suc (suc zero)) later = (2, "Degraded", none)
health_after (suc (suc (suc n))) later = (suc (suc (suc n)), "Cooldown", some later)

settled_health :
    (n : ℕ) (later : String)
    → (suc n, as_str (status_of_failures (suc n)), cooldown_of_failures (suc n) later)
      ≡ health_after (suc n) later
unfolding status_of_failures as_str
settled_health zero later = refl
settled_health (suc zero) later = refl
settled_health (suc (suc n)) later = ground arith

count_after : (n : ℕ) (later : String) → (health_after n later).0 ≡ n
count_after zero later = refl
count_after (suc zero) later = refl
count_after (suc (suc zero)) later = refl
count_after (suc (suc (suc n))) later = refl

failed_health :
    (conn : Conn) (now n : ℕ) (earlier later : String) (row : Option Channel)
    → IsUp conn
    → n < 2147483647
    → map_option health_of row ≡ some (health_after n earlier)
    → map_option health_of (map_option (failed_row conn now later) row)
      ≡ some (health_after (suc n) later)
unfolding failed_row bump_row settle_row
failed_health conn now n earlier later none up small h = cc
failed_health conn now n earlier later (some row) up small h =
    ground
      (arith, h, up.statements 1, up.statements 2, settled_health n later, count_after n earlier)

-- A failure: when it was, and until when a channel that cools down after it is closed.
abbrev pub Failure : Type 0
Failure = ℕ × String

-- The time that came with the last failure.
abbrev pub last_later : List Failure → String
last_later [] = ""
last_later (f ∷ fs) = f.1

module _ {F : Type 0} where
  -- Failures one after the other, the last one first.
  unfoldable pub fail_all : Conn → String → List Failure → Db F → Db F
  fail_all conn id [] db = db
  fail_all conn id (f ∷ fs) db = (record_channel_failure conn f.0 f.1 id (fail_all conn id fs db)).0

  healed_health :
      (conn : Conn) (now : ℕ) (id : String) (db : Db F) {row : Channel}
      → IsUp conn
      → stored id db ≡ some row
      → map_option health_of (stored id (mark_channel_healthy conn now id db).0)
        ≡ some (health_after 0 "")
  unfolding mark_channel_healthy reset_row as_str
  healed_health conn now id db up known =
      ap (λ rows. map_option health_of (rows id))
        (rows_of-update_one conn id (reset_row now) db (λ x. refl))
      ∙ ground (arith, up.pool, up.statements 0, known, eq_refl id)

  -- From a channel that is marked healthy, any failures in a row are counted, up to 2^31 - 1 of them:
  -- without one the channel is healthy, after one or two it is degraded, and after three or more it
  -- cools down until the time that came with the last one, whatever came with the earlier ones.
  pub record_channel_failure_counts :
      (conn : Conn) (now : ℕ) (id : String) (failures : List Failure) (db : Db F) {row : Channel}
      → IsUp conn
      → length failures ≤ 2147483647
      → stored id db ≡ some row
      → map_option health_of
          (stored id (fail_all conn id failures (mark_channel_healthy conn now id db).0))
        ≡ some (health_after (length failures) (last_later failures))
  unfolding fail_all
  record_channel_failure_counts conn now id [] db up small known =
      healed_health conn now id db up known
  record_channel_failure_counts conn now id (f ∷ fs) db up small known =
      let db' = fail_all conn id fs (mark_channel_healthy conn now id db).0 in
      let ih = record_channel_failure_counts conn now id fs db up (omega arith) known in
      ap (λ rows. map_option health_of (rows id)) (rows_of-fail conn f.0 f.1 id db')
      ∙ ground (
        arith,
        up.pool,
        up.statements 0,
        eq_refl id,
        failed_health conn f.0 (length fs) (last_later fs) f.1 (stored id db') up (omega arith) ih,
      )
