-- ===== src/Dispatch.antt =====
-- worker/dispatch/: the two webhook senders and the alert dispatcher. The retry scheduler is the
-- child `Retry`; the proofs are in the other children.
pub mod Session
pub mod Senders
pub mod Outcome
pub mod Retry
pub mod Lifecycle
pub mod Race
use hyperliquid_trading_aler.Prelude.{
  ℕ, ◌+◌, String, Bool, true, false, Option, none, some, List, ◌∷◌, is_given, if◌then◌else◌,
}
use hyperliquid_trading_aler.Prelude.Int.{ℤ}
use hyperliquid_trading_aler.Db.{Env, Database, M, pure, except, ◌>>=◌, ◌>>◌, commit, uuid4, utcnow}
use hyperliquid_trading_aler.Db.Rows.{
  Rule, Alert, AlertDeliveryAttempt, DeliveryStatus, AttemptStatus, pending, delivered,
}
use Session.{save_alert, add_attempt, save_attempt, select_rule, status_of, code_of}
use Senders.{send_discord_webhook, send_generic_webhook}

unfoldable pub create_delivery_attempt : Alert → ℕ → ℕ → M AlertDeliveryAttempt
create_delivery_attempt alert attempt_no start_time = do
  k ← uuid4
  let attempt : AlertDeliveryAttempt = record {
    id = k;
    alert_id = alert.id;
    attempt_no = attempt_no;
    status = AttemptStatus.failed;
    response_code = none;
    latency_ms = none;
    error = none;
    created_at = start_time;
  }
  add_attempt attempt
  pure attempt

unfoldable pub update_delivery_attempt :
    AlertDeliveryAttempt → Bool → Option ℕ → Option ℤ → Option String → M (Unit {0})
update_delivery_attempt attempt success response_code latency_ms error =
    save_attempt (record attempt {
      status = status_of success;
      response_code = response_code;
      latency_ms = latency_ms;
      error = error;
    })

module _ (env : Env) where
  -- One channel of `dispatch`: the attempt record, the send, and the `except Exception` round it.
  unfoldable pub try_channel : Alert → ℕ → ℕ → M Bool → M Bool
  unfolding create_delivery_attempt update_delivery_attempt
  try_channel alert attempt_no start_time send = do
    attempt ← create_delivery_attempt alert attempt_no start_time
    except
        (do
          success ← send
          end_time ← utcnow env
          update_delivery_attempt attempt success (code_of success)
              (some (env.elapsed_ms start_time end_time)) none
          pure success)
        (λ e. do
          end_time ← utcnow env
          update_delivery_attempt attempt false none (some (env.elapsed_ms start_time end_time))
              (some (env.describe e))
          pure false)

  -- The last lines of each path: status, attempt count, commit.
  abbrev pub finish : Alert → DeliveryStatus → ℕ → M (Unit {0})
  finish alert status attempt_no = do
    save_alert (record alert { delivery_status = status; delivery_attempts = attempt_no })
    commit

  unfoldable pub dispatch_by : Alert → Rule → M (Unit {0})
  unfolding try_channel send_discord_webhook send_generic_webhook
  dispatch_by alert rule = do
    let attempt_no = alert.delivery_attempts + 1
    start_time ← utcnow env
    let stamped : Alert = record alert { last_delivery_attempt = some start_time }
    save_alert stamped
    discord ←
        if is_given rule.discord_webhook_url
        then try_channel stamped attempt_no start_time (send_discord_webhook env stamped rule)
        else pure false
    if discord then finish stamped delivered attempt_no else do
      generic ←
          if is_given rule.generic_webhook_url
          then try_channel stamped attempt_no start_time (send_generic_webhook env stamped rule)
          else pure false
      finish stamped (if generic then delivered else pending) attempt_no

  unfoldable pub dispatch : Alert → M (Unit {0})
  dispatch alert = do
    rule ← select_rule alert.rule_id
    elim rule [ none ↦ pure tt | some r ↦ dispatch_by alert r ]
