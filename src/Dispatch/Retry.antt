-- ===== src/Dispatch/Retry.antt =====
-- worker/dispatch/retry.py: the backoff and one pass of the scheduler over the pending alerts. Times
-- are in microseconds, so the half second that `2 ** (attempts - 1)` gives at 0 attempts is exact.
pub mod Backoff
pub mod Turn
pub mod Settle
pub mod Pass
pub mod Place
pub mod Progress
use hyperliquid_trading_aler.Prelude.{
  ℕ, zero, suc, ◌+◌, ◌*◌, ◌/◌, ◌^◌, min, Bool, true, false, ◌&&◌, Option, none, some, String, List,
  [], ◌∷◌, ltb, leb, is_given, take, select, sort_by, if◌then◌else◌,
}
use hyperliquid_trading_aler.Config.{WorkerSettings}
use hyperliquid_trading_aler.Db.{
  Env, Database, M, pure, except, ◌>>=◌, ◌>>◌, gets, commit, uuid4, utcnow, uniform, rollback,
}
use hyperliquid_trading_aler.Db.Rows.{
  Rule, Alert, AlertDeliveryAttempt, AttemptStatus, DeliveryStatus, is_pending, delivered,
}
use hyperliquid_trading_aler.Dispatch.Session.{
  save_alert, add_attempt, save_attempt, select_rule, status_of, code_of,
}
use hyperliquid_trading_aler.Dispatch.Senders.{send_discord_webhook, send_generic_webhook}

-- `min(2 ** (attempts - 1), 32)` seconds
unfoldable pub base : ℕ → ℕ
base zero = 500000
base (suc n) = min (2 ^ n) 32 * 1000000

-- The alert's status at the end of its turn.
abbrev pub verdict : WorkerSettings → Bool → ℕ → DeliveryStatus → DeliveryStatus
verdict cfg success attempts before =
    if success
    then delivered
    else if leb cfg.retry_backoff_max attempts
    then DeliveryStatus.failed
    else before

module _ (env : Env) where
  unfoldable pub calculate_backoff : ℕ → M ℕ
  unfolding base
  calculate_backoff attempts = do
    let b = base attempts
    jitter ← uniform env (b / 2)
    pure (b + jitter)

  -- `if now < next_attempt_time: continue`; the backoff is drawn only if there was an attempt.
  unfoldable pub is_waiting : Alert → ℕ → M Bool
  unfolding calculate_backoff
  is_waiting alert now = elim alert.last_delivery_attempt [
    | none ↦ pure false
    | some last ↦ (do
      backoff ← calculate_backoff alert.delivery_attempts
      pure (ltb now (last + backoff)))
  ]

  -- The `try` block: Discord first, the generic webhook if that did not take it. The result is
  -- `success`, and the text of an exception.
  unfoldable pub send_channels : Alert → Rule → M (Bool × Option String)
  unfolding send_discord_webhook send_generic_webhook
  send_channels alert rule =
      except
        (do
          discord ←
              if is_given rule.discord_webhook_url
              then send_discord_webhook env alert rule
              else pure false
          if discord
              then pure (true, none)
              else if is_given rule.generic_webhook_url
              then (do generic ← send_generic_webhook env alert rule; pure (generic, none))
              else pure (false, none))
        (λ e. pure (false, some (env.describe e)))

module _ (env : Env) (cfg : WorkerSettings) where
  -- A turn that is due and has its rule.
  unfoldable pub attempt_delivery : Alert → Rule → ℕ → M (Unit {0})
  unfolding send_channels
  attempt_delivery alert rule now = do
    let attempt_no = alert.delivery_attempts + 1
    let tried : Alert = record alert {
      delivery_attempts = attempt_no;
      last_delivery_attempt = some now;
    }
    save_alert tried
    start_time ← utcnow env
    k ← uuid4
    let attempt : AlertDeliveryAttempt = record {
      id = k;
      alert_id = alert.id;
      attempt_no = attempt_no;
      status = AttemptStatus.failed;
      response_code = none;
      latency_ms = none;
      error = none;
      created_at = start_time;
    }
    add_attempt attempt
    sent ← send_channels env tried rule
    end_time ← utcnow env
    save_attempt (record attempt {
      status = status_of sent.0;
      response_code = code_of sent.0;
      latency_ms = some (env.elapsed_ms start_time end_time);
      error = sent.1;
    })
    save_alert
        (record tried { delivery_status = verdict cfg sent.0 attempt_no alert.delivery_status })
    commit

  -- The body of the loop over the pending alerts.
  unfoldable pub process_alert : Alert → M (Unit {0})
  process_alert alert = do
    now ← utcnow env
    waiting ← is_waiting env alert now
    if waiting then pure tt else do
      found ← select_rule alert.rule_id
      elim found [
        | none ↦ (do save_alert (record alert { delivery_status = DeliveryStatus.failed }); commit)
        | some rule ↦ attempt_delivery alert rule now
      ]

  unfoldable pub process_all : List Alert → M (Unit {0})
  process_all [] = pure tt
  process_all (a ∷ rest) = process_alert a >> process_all rest

  -- The rows that a pass selects: pending, attempts left, the 50 oldest.
  unfoldable pub due_alerts : Database → List Alert
  due_alerts db = take 50 (
      sort_by (λ (a : Alert). a.created_at)
        (select
          (λ (a : Alert).
            is_pending a.delivery_status && ltb a.delivery_attempts cfg.retry_backoff_max)
          db.alerts))

  unfoldable pub process_pending_alerts : M (Unit {0})
  process_pending_alerts = do alerts ← gets due_alerts; process_all alerts

  -- `retry_scheduler`, cut after a number of rounds of its endless loop. A pass that raises is logged,
  -- and its session is left with a rollback; the sleep is the time that the next pass reads.
  unfoldable pub retry_scheduler : ℕ → M (Unit {0})
  retry_scheduler zero = pure tt
  retry_scheduler (suc rounds) =
      except process_pending_alerts (λ _. rollback) >> retry_scheduler rounds
