-- ===== src/Dispatch/Retry/Settle.antt =====
-- An alert's way through the retry scheduler until it is settled, whatever the rest of the system
-- does in between (worker/dispatch/retry.py).
use hyperliquid_trading_aler.Prelude.{
  ℕ, suc, ◌+◌, ◌≤◌, ◌<◌, ◌≡◌, ◌≢◌, refl, subst, ◌∙◌, false, Option, none, some, arith, ◌⊎◌, inl,
  inr, sym,
}
use hyperliquid_trading_aler.Config.{WorkerSettings}
use hyperliquid_trading_aler.Db.{Env, World}
use hyperliquid_trading_aler.Db.Rows.{Rule, Alert, pending}
use hyperliquid_trading_aler.Db.Table.{row, row-key}
use hyperliquid_trading_aler.Dispatch.Outcome.{alert_key, rule_key}
use hyperliquid_trading_aler.Dispatch.Retry.{process_alert}
use hyperliquid_trading_aler.Dispatch.Retry.Turn.{waits, turn_row, turn_lem}

module _ (env : Env) (cfg : WorkerSettings) (k : ℕ) where
  -- `Turns n w w'`: from w to w', alert k has n turns that are no waits. A turn is taken only while
  -- the row is pending with attempts left, which is what a pass selects. Between turns anything may
  -- happen that leaves the alert's row alone.
  pub data Turns : ℕ → World → World → Type 0 where
    done : {w : World} → Turns 0 w w
    other :
        {n : ℕ} {w v u : World}
        → row alert_key k v.db.alerts ≡ row alert_key k w.db.alerts
        → Turns n v u
        → Turns n w u
    turn :
        {n : ℕ} {w u : World} (a : Alert)
        → row alert_key k w.db.alerts ≡ some a
        → a.delivery_status ≡ pending
        → a.delivery_attempts < cfg.retry_backoff_max
        → waits env cfg a w ≡ false
        → Turns n (process_alert env cfg a w).1 u
        → Turns (suc n) w u

module _ (env : Env) (cfg : WorkerSettings) (k : ℕ) where
  -- A settled alert has no more turns.
  settled-stays :
      {n : ℕ} {w u : World} {b : Alert}
      → Turns env cfg k n w u
      → row alert_key k w.db.alerts ≡ some b
      → b.delivery_status ≢ pending
      → (n ≡ 0) × (row alert_key k u.db.alerts ≡ some b)
  settled-stays done here closed = (refl, here)
  settled-stays (other same more) here closed = settled-stays more (same ∙ here) closed
  settled-stays {b = b} (turn a there open_ _ _ _) here closed = absurd (closed (cc))

  pub turn-row :
      (x : Alert) (w : World)
      → row alert_key k w.db.alerts ≡ some x
      → waits env cfg x w ≡ false
      → row alert_key k (process_alert env cfg x w).1.db.alerts
        ≡ some (turn_row env cfg x w (row rule_key x.rule_id w.db.rules))
  turn-row x w here due =
      let same : x.id ≡ k = row-key alert_key k w.db.alerts here in
      subst
        (λ j.
          row alert_key j (process_alert env cfg x w).1.db.alerts
          ≡ some (turn_row env cfg x w (row rule_key x.rule_id w.db.rules)))
        same
        (turn_lem env cfg x w (row rule_key x.rule_id w.db.rules) {old = x} refl
          (subst (λ j. row alert_key j w.db.alerts ≡ some x) (sym same) here) due).1

  -- The row after a turn: settled, or pending with one attempt more and attempts left.
  pub after_turn :
      (x : Alert) (w : World) (found : Option Rule)
      → ((turn_row env cfg x w found).delivery_status ≢ pending)
        ⊎ (((turn_row env cfg x w found).delivery_status ≡ pending)
            × ((turn_row env cfg x w found).delivery_attempts ≡ x.delivery_attempts + 1)
            × (x.delivery_attempts + 1 < cfg.retry_backoff_max))
  after_turn x w none = inl (λ e. cc)
  after_turn x w (some r) = ground arith

  -- While an alert is pending with attempts left, the number of its turns that are no waits is at
  -- most the number of attempts left, whatever else happens in between that leaves its row alone.
  -- After n such turns it is settled, delivered or failed, or it is still pending with exactly n
  -- attempts more and attempts left; so it is settled once the turns have used up the attempts.
  pub settles :
      {n : ℕ} {w u : World} (a : Alert)
      → Turns env cfg k n w u
      → row alert_key k w.db.alerts ≡ some a
      → a.delivery_status ≡ pending
      → a.delivery_attempts < cfg.retry_backoff_max
      → (b : Alert) × (row alert_key k u.db.alerts ≡ some b)
        × (a.delivery_attempts + n ≤ cfg.retry_backoff_max)
        × ((b.delivery_status ≢ pending)
            ⊎ ((b.delivery_status ≡ pending)
                × (b.delivery_attempts ≡ a.delivery_attempts + n)
                × (a.delivery_attempts + n < cfg.retry_backoff_max)))
  settles a done here open_ left = (a, here, omega arith, inr (open_, omega arith, omega arith))
  settles a (other same more) here open_ left = settles a more (same ∙ here) open_ left
  settles {n = suc n} {w = w} {u = u} a (turn x there _ _ due more) here open_ left =
      let found = row rule_key x.rule_id w.db.rules in
      let y = turn_row env cfg x w found in
      let next : row alert_key k (process_alert env cfg x w).1.db.alerts ≡ some y =
        turn-row x w there due in
      let same : x.delivery_attempts ≡ a.delivery_attempts = cc in
      elim (after_turn x w found) [
        | inl closed ↦
            (let (none_left, final) = settled-stays more next closed in
              (y, final, omega arith, inl closed))
        | inr (open', more', left') ↦
            (let (b, final, bound, ended) = settles y more next open' (omega arith) in
              (
                b,
                final,
                omega arith,
                elim ended [
                  | inl closed ↦ inl closed
                  | inr (still, counted, room) ↦ inr (still, omega arith, omega arith)
                ],
              ))
      ]
