-- ===== src/Dispatch/Retry/Pass.antt =====
-- A whole pass of the retry scheduler (worker/dispatch/retry.py): what it leaves alone.
use hyperliquid_trading_aler.Prelude.{
  ℕ, ◌<◌, ◌≡◌, ◌≢◌, refl, ◌∙◌, true, ◌&&◌, none, some, List, [], ◌∷◌, arith, ltb, All, All-take,
  All-sort_by, All-select, ok, ap, Bool-cases, Option-cases, inl, inr,
}
use hyperliquid_trading_aler.Config.{WorkerSettings}
use hyperliquid_trading_aler.Db.{Env, World, Database}
use hyperliquid_trading_aler.Db.Rows.{Alert, pending, is_pending}
use hyperliquid_trading_aler.Db.Table.{row, IsKeyed, others, row-update_ne}
use hyperliquid_trading_aler.Dispatch.Outcome.{alert_key, rule_key}
use hyperliquid_trading_aler.Dispatch.Retry.{
  process_alert, process_all, due_alerts, process_pending_alerts,
}
use hyperliquid_trading_aler.Dispatch.Retry.Turn.{
  waits, ready, turn_now, turn_row, retried, process-waits, process-orphan, process-attempts,
  ready_db, attempt_alerts, attempt_ok,
}

-- The alerts that a pass may retry.
abbrev pub IsDue : WorkerSettings → Alert → Type 0
IsDue cfg a = (a.delivery_status ≡ pending) × (a.delivery_attempts < cfg.retry_backoff_max)

module _ (env : Env) (cfg : WorkerSettings) where
  pub process-others :
      (a : Alert) (k : ℕ) (w : World)
      → a.id ≢ k
      → let (result, w') = process_alert env cfg a w in
        (result ≡ ok tt) × (row alert_key k w'.db.alerts ≡ row alert_key k w.db.alerts)
  process-others a k w differs = elim (Bool-cases (waits env cfg a w)) [
    | inl early ↦
        rw (process-waits env cfg a w early)
          (refl, ap (λ (db : Database). row alert_key k db.alerts) (ready_db env cfg a w).0)
    | inr due ↦ elim (Option-cases (row rule_key a.rule_id w.db.rules)) [
      | inl gone ↦
          (let (returns, alerts, _, _) = process-orphan env cfg a w due gone in
            (
              returns,
              rw alerts (row-update_ne alert_key k (turn_row env cfg a w none) w.db.alerts differs),
            ))
      | inr (r, found) ↦
          (let v = ready env cfg a w in
            let now = turn_now env cfg a w in
            rw (process-attempts env cfg a w due found) (
              attempt_ok env cfg a r now v,
              rw (attempt_alerts env cfg a r now v, (ready_db env cfg a w).0)
                  (row-update_ne alert_key k (retried env cfg a r now v.sent) w.db.alerts differs),
            ))
    ]
  ]

  pub process_all-others :
      (alerts : List Alert) (k : ℕ) (w : World)
      → All (λ a. a.id ≢ k) alerts
      → let (result, w') = process_all env cfg alerts w in
        (result ≡ ok tt) × (row alert_key k w'.db.alerts ≡ row alert_key k w.db.alerts)
  unfolding process_all
  process_all-others [] k w h = (refl, refl)
  process_all-others (a ∷ rest) k w h =
      let w1 = (process_alert env cfg a w).1 in
      let (fine, same) = process-others a k w h.0 in
      let (fine', same') = process_all-others rest k w1 h.1 in ground arith

  pub selected-IsDue :
      (a : Alert)
      → (is_pending a.delivery_status && ltb a.delivery_attempts cfg.retry_backoff_max) ≡ true
      → IsDue cfg a
  selected-IsDue a h = ground arith

  due-others :
      (k : ℕ) (db : Database) {a : Alert}
      → IsKeyed alert_key db.alerts
      → row alert_key k db.alerts ≡ some a
      → ¬ IsDue cfg a
      → All (λ b. b.id ≢ k) (due_alerts env cfg db)
  unfolding due_alerts
  due-others k db {a} keyed found settled =
      All-take (λ b. b.id ≢ k) 50 _
        (All-sort_by (λ b. b.id ≢ k) (λ (a : Alert). a.created_at) _
          (All-select (λ b. b.id ≢ k) _ db.alerts
            (others alert_key
              (λ b.
                (is_pending b.delivery_status && ltb b.delivery_attempts cfg.retry_backoff_max)
                ≡ true)
              k db.alerts keyed found (λ p. settled (selected-IsDue a p)))))

  -- When no two alerts share an identifier, a pass over the pending alerts returns without an
  -- exception, and leaves the row of every alert alone that is delivered or failed, or has no
  -- attempts left.
  pub pass-settled :
      (k : ℕ) (w : World) {a : Alert}
      → IsKeyed alert_key w.db.alerts
      → row alert_key k w.db.alerts ≡ some a
      → ¬ IsDue cfg a
      → let (result, w') = process_pending_alerts env cfg w in
        (result ≡ ok tt) × (row alert_key k w'.db.alerts ≡ some a)
  unfolding process_pending_alerts
  pass-settled k w keyed found settled =
      let (fine, same) =
        process_all-others (due_alerts env cfg w.db) k w (due-others k w.db keyed found settled) in
      (fine, same ∙ found)
