-- ===== src/Dispatch/Retry/Turn.antt =====
-- One alert's turn in a pass of the retry scheduler, and its turns until it is settled
-- (worker/dispatch/retry.py).
use hyperliquid_trading_aler.Prelude.{
  ℕ, ◌+◌, ◌<◌, ◌≤◌, ◌≡◌, refl, Bool, true, false, Option, none, some, List, arith, ok, length,
}
use hyperliquid_trading_aler.Config.{WorkerSettings}
use hyperliquid_trading_aler.Db.{Env, World, Post}
use hyperliquid_trading_aler.Db.Rows.{Rule, Alert, DeliveryStatus, delivered}
use hyperliquid_trading_aler.Db.Table.{row, update, row-update_self, update-update}
use hyperliquid_trading_aler.Dispatch.Outcome.{alert_key, rule_key, took, after_both}
use hyperliquid_trading_aler.Dispatch.Senders.{discord_payload, generic_payload}
use hyperliquid_trading_aler.Dispatch.Retry.{verdict, is_waiting, attempt_delivery, process_alert}

module _ (env : Env) (cfg : WorkerSettings) (a : Alert) where
  -- The alert's row after an attempt that began at `now`.
  abbrev pub retried : Rule → ℕ → List Post → Alert
  retried r now sent = record a {
    delivery_status = verdict cfg (took env a r sent) (a.delivery_attempts + 1) a.delivery_status;
    delivery_attempts = a.delivery_attempts + 1;
    last_delivery_attempt = some now;
  }

  module _ (r : Rule) (now : ℕ) (w : World) where
    pub attempt_alerts :
        (attempt_delivery env cfg a r now w).1.db.alerts
        ≡ update alert_key (retried r now w.sent) w.db.alerts
    unfolding attempt_delivery discord_payload generic_payload
    attempt_alerts = ground (
      arith,
      update-update alert_key
          (record a {
            delivery_attempts = a.delivery_attempts + 1;
            last_delivery_attempt = some now;
          })
          (retried r now w.sent) w.db.alerts refl,
    )

    pub attempt_ok : (attempt_delivery env cfg a r now w).0 ≡ ok tt
    unfolding attempt_delivery
    attempt_ok = ground arith

    pub attempt_sent : (attempt_delivery env cfg a r now w).1.sent ≡ after_both env a r w.sent
    unfolding attempt_delivery
    attempt_sent = ground arith

    pub attempt_rules : (attempt_delivery env cfg a r now w).1.db.rules ≡ w.db.rules
    unfolding attempt_delivery
    attempt_rules = ground arith

    pub attempt_audit :
        length (attempt_delivery env cfg a r now w).1.db.attempts ≡ length w.db.attempts + 1
    unfolding attempt_delivery
    attempt_audit = ground arith

    pub attempt_durable :
        (attempt_delivery env cfg a r now w).1.committed ≡ (attempt_delivery env cfg a r now w).1.db
    unfolding attempt_delivery
    attempt_durable = ground arith

  module _ (w : World) where
    -- The reading of the clock that the turn begins with, and the world after it.
    abbrev pub turn_now : ℕ
    turn_now = env.clock w.ticks

    abbrev pub begun : World
    begun = record w { ticks = w.ticks + 1 }

    abbrev pub waits : Bool
    waits = elim (is_waiting env a turn_now begun).0 [ ok b ↦ b | _ ↦ false ]

    abbrev pub ready : World
    ready = (is_waiting env a turn_now begun).1

    pub is_waiting-ok : (is_waiting env a turn_now begun).0 ≡ ok waits
    unfolding is_waiting
    is_waiting-ok = ground arith

    pub ready_db : (ready.db ≡ w.db) × (ready.sent ≡ w.sent) × (ready.committed ≡ w.committed)
    unfolding is_waiting
    ready_db = ground arith

    pub process-waits : waits ≡ true → process_alert env cfg a w ≡ (ok tt, ready)
    unfolding process_alert
    process-waits h = ground (arith, is_waiting-ok)

    pub process-attempts :
        {r : Rule}
        → waits ≡ false
        → row rule_key a.rule_id w.db.rules ≡ some r
        → process_alert env cfg a w ≡ attempt_delivery env cfg a r turn_now ready
    unfolding process_alert
    process-attempts h found = ground (arith, is_waiting-ok, ready_db)

    pub process-orphan :
        waits ≡ false
        → row rule_key a.rule_id w.db.rules ≡ none
        → let (result, w') = process_alert env cfg a w in
          (result ≡ ok tt)
          × (w'.db.alerts
              ≡ update alert_key (record a { delivery_status = DeliveryStatus.failed }) w.db.alerts)
          × (w'.sent ≡ w.sent)
          × (w'.committed ≡ w'.db)
    unfolding process_alert
    process-orphan h found = ground (arith, is_waiting-ok, ready_db)

-- What the turn of alert `a` leaves in its row, and what it sends.
module _ (env : Env) (cfg : WorkerSettings) (a : Alert) (w : World) where
  abbrev pub turn_row : Option Rule → Alert
  turn_row none = record a { delivery_status = DeliveryStatus.failed }
  turn_row (some r) = retried env cfg a r (turn_now env cfg a w) w.sent

  abbrev pub turn_sent : Option Rule → List Post
  turn_sent none = w.sent
  turn_sent (some r) = after_both env a r w.sent

  -- The same with the row as a record.
  pub turn_lem :
      (found : Option Rule) {old : Alert}
      → row rule_key a.rule_id w.db.rules ≡ found
      → row alert_key a.id w.db.alerts ≡ some old
      → waits env cfg a w ≡ false
      → let (result, w') = process_alert env cfg a w in
        (result ≡ ok tt)
        × (row alert_key a.id w'.db.alerts ≡ some (turn_row found))
        × (w'.sent ≡ turn_sent found)
        × (w'.committed ≡ w'.db)
  turn_lem none gone known due =
      let (returns, alerts, sent, durable) = process-orphan env cfg a w due gone in
      (
        returns,
        rw alerts (row-update_self alert_key (turn_row none) w.db.alerts known),
        sent,
        durable,
      )
  turn_lem (some r) found known due =
      let v = ready env cfg a w in
      let now = turn_now env cfg a w in
      let (same, quiet, _) = ready_db env cfg a w in
      rw (process-attempts env cfg a w due found) (
        attempt_ok env cfg a r now v,
        rw (attempt_alerts env cfg a r now v, same, quiet)
            (row-update_self alert_key (turn_row (some r)) w.db.alerts known),
        rw (attempt_sent env cfg a r now v, quiet),
        attempt_durable env cfg a r now v,
      )

  -- What a turn may leave in the row: the alert of a rule that is gone is failed, and after an
  -- attempt the status follows from the channels and the number of attempts.
  abbrev pub IsTurned : Option Rule → Alert → Type 0
  IsTurned none b = b ≡ record a { delivery_status = DeliveryStatus.failed }
  IsTurned (some r) b =
      (b ≡ record a {
        delivery_status = b.delivery_status;
        delivery_attempts = a.delivery_attempts + 1;
        last_delivery_attempt = some (env.clock w.ticks);
      })
      × (took env a r w.sent ≡ true → b.delivery_status ≡ delivered)
      × (took env a r w.sent ≡ false
          → cfg.retry_backoff_max ≤ a.delivery_attempts + 1
          → b.delivery_status ≡ DeliveryStatus.failed)
      × (took env a r w.sent ≡ false
          → a.delivery_attempts + 1 < cfg.retry_backoff_max
          → b.delivery_status ≡ a.delivery_status)

  turn_row-IsTurned : (found : Option Rule) → IsTurned found (turn_row found)
  turn_row-IsTurned none = refl
  turn_row-IsTurned (some r) = (
    refl,
    (λ taken. rw taken refl),
    (λ lost reached. rw lost (ground arith)),
    (λ lost left. rw lost (ground arith)),
  )

  -- The turn of an alert whose backoff is over returns without an exception and commits. If the
  -- alert's rule is gone, the alert becomes failed and nothing is sent. Otherwise it is sent to
  -- Discord and, if Discord does not take it, to the generic webhook, its attempt count rises by
  -- one, and its status becomes delivered if a channel took it, failed if none did and the attempts
  -- have reached the maximum, and stays as it was in every other case.
  pub turn-due :
      (found : Option Rule) {old : Alert}
      → row rule_key a.rule_id w.db.rules ≡ found
      → row alert_key a.id w.db.alerts ≡ some old
      → waits env cfg a w ≡ false
      → let (result, w') = process_alert env cfg a w in
        (result ≡ ok tt)
        × ((b : Alert) × (row alert_key a.id w'.db.alerts ≡ some b) × IsTurned found b)
        × (w'.sent ≡ turn_sent found)
        × (w'.committed ≡ w'.db)
  turn-due found is_found known due =
      let (returns, there, sent, durable) = turn_lem found is_found known due in
      (returns, (turn_row found, there, turn_row-IsTurned found), sent, durable)
