-- ===== src/Storage/Logs.antt =====
-- The switch log and subscription fee methods of crates/storage-sqlite/src/lib.rs.
use agent_proxy_rust.Common.{
  ℕ, ◌+◌, String, Option, none, some, Bool, ◌||◌, ◌&&◌, List, [], ◌∷◌, ◌++◌, if◌then◌else◌, str_eq,
  any, keep, get_or, min, contains,
}
use agent_proxy_rust.Storage.Types.{SwitchLog, SubscriptionFee, StorageError, backend, duplicate}
use agent_proxy_rust.Storage.Sql.{
  Outcome, failed, done, Conn, with_conn, statement, order_by, text_le, text_lt, take,
}
use agent_proxy_rust.Storage.Db.{Db}
use agent_proxy_rust.Storage.Costs.{given}

abbrev pub log_id : String → SwitchLog → Bool
log_id id log = str_eq log.id id

unfoldable pub fee_error : String → StorageError
fee_error message =
    if contains message "UNIQUE constraint" then duplicate message else backend message

module _ {F : Type 0} where
  unfoldable pub insert_switch_log : Conn → SwitchLog → Db F → Db F × Outcome (Unit {0})
  insert_switch_log conn log db = with_conn conn db (
      statement (conn.trouble 0) db (
        if any (log_id log.id) db.switch_logs
        then (db, failed (backend conn.unique_failed))
        else (record db { switch_logs = db.switch_logs ++ (log ∷ []) }, done tt)))

  -- `ORDER BY created_at DESC LIMIT n`.
  unfoldable pub query_switch_logs : Conn → Option ℕ → Db F → Db F × Outcome (List SwitchLog)
  query_switch_logs conn limit db = with_conn conn db (
      statement (conn.trouble 0) db (
        db,
        done (
            take (min (get_or 20 limit) 100)
              (order_by (λ a b. text_le b.created_at a.created_at) db.switch_logs)),
      ))

  -- The id comes from the counter: the one of the given fee is not read.
  abbrev pub write_fee : Option String → SubscriptionFee F → Db F → Db F × Outcome (Unit {0})
  write_fee (some message) fee db = (db, failed (fee_error message))
  write_fee none fee db = (
    record db {
      subscription_fees = db.subscription_fees ++ (record fee { id = db.next_fee_id } ∷ []);
      next_fee_id = db.next_fee_id + 1;
    },
    done tt,
  )

  unfoldable pub insert_subscription_fee :
      Conn → SubscriptionFee F → Db F → Db F × Outcome (Unit {0})
  insert_subscription_fee conn fee db = with_conn conn db (write_fee (conn.trouble 0) fee db)

  -- `ORDER BY month DESC, channel_name`.
  abbrev pub latest_month : SubscriptionFee F → SubscriptionFee F → Bool
  latest_month a b =
      text_lt b.month a.month || (str_eq a.month b.month && text_le a.channel_name b.channel_name)

  unfoldable pub query_subscription_fees :
      Conn → Option String → Option String → Db F → Db F × Outcome (List (SubscriptionFee F))
  query_subscription_fees conn channel month db = with_conn conn db (
      statement (conn.trouble 0) db (
        db,
        done (
            order_by latest_month (
              keep (λ fee. given channel fee.channel_name && given month fee.month)
                db.subscription_fees)),
      ))
