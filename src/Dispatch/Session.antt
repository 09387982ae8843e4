-- ===== src/Dispatch/Session.antt =====
-- What the dispatcher and the retry pass write: the alert and the attempt objects of their session.
use hyperliquid_trading_aler.Prelude.{ℕ, Bool, true, false, Option, none, some, ◌∷◌}
use hyperliquid_trading_aler.Db.{M, gets, modify}
use hyperliquid_trading_aler.Db.Rows.{Rule, Alert, AlertDeliveryAttempt, AttemptStatus}
use hyperliquid_trading_aler.Db.Table.{row, update}

-- The session writes an alert that it holds, `alert.field = value`.
abbrev pub save_alert : Alert → M (Unit {0})
save_alert a = modify (λ db. record db { alerts = update (λ (x : Alert). x.id) a db.alerts })

abbrev pub save_attempt : AlertDeliveryAttempt → M (Unit {0})
save_attempt a =
    modify
      (λ db. record db { attempts = update (λ (x : AlertDeliveryAttempt). x.id) a db.attempts })

abbrev pub add_attempt : AlertDeliveryAttempt → M (Unit {0})
add_attempt a = modify (λ db. record db { attempts = a ∷ db.attempts })

-- `select(Rule).where(Rule.id == rule_id)`
abbrev pub select_rule : ℕ → M (Option Rule)
select_rule k = gets (λ db. row (λ (r : Rule). r.id) k db.rules)

abbrev pub status_of : Bool → AttemptStatus
status_of true = AttemptStatus.success
status_of false = AttemptStatus.failed

abbrev pub code_of : Bool → Option ℕ
code_of true = some 200
code_of false = none
