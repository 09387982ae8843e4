-- ===== src/System/Retries.antt =====
-- The dispatcher and the retry task (worker/dispatch/) keep the invariant of the system.
use hyperliquid_trading_aler.System.Writes.{attempt-Writes}
use hyperliquid_trading_aler.System.Held.{IsHeld, Writes-IsHeld, IsHeld-write, rows-IsHeld}
use hyperliquid_trading_aler.Worker.Loop.{then-runs}
use hyperliquid_trading_aler.Prelude.{
  ℕ, ◌≡◌, refl, sym, ap, subst, ◌∙◌, inl, inr, false, Bool-cases, Option-cases, none, some, List,
  [], ◌∷◌, arith, All, All-take, All-sort_by, All-select, All-weaken, Result, ◌⊎◌, true, ltb, ◌&&◌,
  ◌≢◌, ok, err, zero, suc,
}
use hyperliquid_trading_aler.Config.{WorkerSettings}
use hyperliquid_trading_aler.Db.{Env, World, Database, rollback, except}
use hyperliquid_trading_aler.Db.Rows.{Alert, DeliveryStatus, delivered, is_pending}
use hyperliquid_trading_aler.Db.Table.{row, update}
use hyperliquid_trading_aler.Db.Table.Numbered.{keyed-rows}
use hyperliquid_trading_aler.Dispatch.Outcome.{alert_key, rule_key}
use hyperliquid_trading_aler.Dispatch.Retry.{
  is_waiting, process_alert, process_all, due_alerts, process_pending_alerts, retry_scheduler,
}
use hyperliquid_trading_aler.Dispatch.Retry.Turn.{
  waits, ready, ready_db, turn_now, retried, is_waiting-ok, process-waits, process-attempts,
}
use hyperliquid_trading_aler.Dispatch.Retry.Place.{process_all-cons}
use hyperliquid_trading_aler.Evaluate.Engine.Windows.{SameWindow}
use hyperliquid_trading_aler.System.Sound.{
  IsSound, Writes, Writes-IsSound, Leaves-IsSound, durable-IsSound,
}

module _ (env : Env) (cfg : WorkerSettings) where
  ready-fresh : (a : Alert) (w : World) → (ready env cfg a w).fresh ≡ w.fresh
  unfolding is_waiting
  ready-fresh a w = ground arith

  orphan-world :
      (a : Alert) (w : World)
      → waits env cfg a w ≡ false
      → row rule_key a.rule_id w.db.rules ≡ none
      → let v = ready env cfg a w in
        let db' = record v.db {
          alerts =
              update alert_key (record a { delivery_status = DeliveryStatus.failed }) v.db.alerts;
        } in
        (process_alert env cfg a w).1 ≡ record v { db = db'; committed = db' }
  unfolding process_alert
  orphan-world a w due gone = ground (arith, is_waiting-ok env cfg a w, ready_db env cfg a w)

  -- A turn of an alert: a wait, or a write to its row that keeps its rule and window.
  abbrev Turned : Alert → World → World → Type 0
  Turned a w w' =
      (w' ≡ ready env cfg a w)
      ⊎ ((b : Alert) × (b.id ≡ a.id) × SameWindow a b × Writes (ready env cfg a w) b w')

  process-Turned :
      (a : Alert) (w : World)
      → a.delivery_status ≢ delivered
      → Turned a w (process_alert env cfg a w).1
  process-Turned a w undelivered = elim (Bool-cases (waits env cfg a w)) [
    | inl early ↦
        inl (ap (λ (out : Result (Unit {0}) × World). out.1) (process-waits env cfg a w early))
    | inr due ↦ (elim (Option-cases (row rule_key a.rule_id w.db.rules)) [
      | inl gone ↦
          (let b : Alert = record a { delivery_status = DeliveryStatus.failed } in
            inr (
              b,
              refl,
              record { rule = refl; start = refl; end_ = refl; triggered = refl },
              rw (orphan-world a w due gone) (record {
                alerts = refl;
                rules = refl;
                candles = refl;
                durable = refl;
                fresh = omega arith;
                logs = record {
                  grows = λ k h. h;
                  owners = λ p mine h. h;
                  recorded = λ e. absurd (cc);
                };
              }),
            ))
      | inr (r, found) ↦
          (let v = ready env cfg a w in
            let now = turn_now env cfg a w in
            inr (
              retried env cfg a r now v.sent,
              refl,
              record { rule = refl; start = refl; end_ = refl; triggered = refl },
              rw (process-attempts env cfg a w due found)
                  (attempt-Writes env cfg a r now v undelivered),
            ))
    ])
  ]

  ready-IsSound : (a : Alert) (w : World) → IsSound w → IsSound (ready env cfg a w)
  ready-IsSound a w sound =
      let (same, _, durable) = ready_db env cfg a w in
      Leaves-IsSound w (ready env cfg a w)
        (record {
          alerts = rw same refl;
          rules = rw same refl;
          attempts = rw same refl;
          fresh = rw (ready-fresh a w) (omega arith);
        })
        (record {
          durable = durable ∙ sound.consistent.durable ∙ sym same;
          alerts = rw same sound.consistent.alerts;
          candles = rw same sound.consistent.candles;
        })
        sound

  ready-IsHeld : (a x : Alert) (w : World) → IsHeld w x → IsHeld (ready env cfg a w) x
  ready-IsHeld a x w (old, known, same) = (old, rw (ready_db env cfg a w).0 known, same)

  process-IsSound :
      (a : Alert) (w : World)
      → a.delivery_status ≢ delivered
      → IsHeld w a
      → IsSound w
      → IsSound (process_alert env cfg a w).1
  process-IsSound a w undelivered held sound = elim (process-Turned a w undelivered) [
    | inl same ↦ subst IsSound (sym same) (ready-IsSound a w sound)
    | inr (b, e, window, writes) ↦
        (let (old, known, agree) =
            IsHeld-write (ready env cfg a w) a b e window (ready-IsHeld a a w held) in
          Writes-IsSound (ready env cfg a w) b (process_alert env cfg a w).1 known agree writes
            (ready-IsSound a w sound))
  ]

  process-IsHeld :
      (a x : Alert) (w : World)
      → a.delivery_status ≢ delivered
      → IsHeld w a
      → IsHeld w x
      → IsHeld (process_alert env cfg a w).1 x
  process-IsHeld a x w undelivered held other = elim (process-Turned a w undelivered) [
    | inl same ↦ subst (λ u. IsHeld u x) (sym same) (ready-IsHeld a x w other)
    | inr (b, e, window, writes) ↦
        Writes-IsHeld (ready env cfg a w) b (process_alert env cfg a w).1 x writes
          (IsHeld-write (ready env cfg a w) a b e window (ready-IsHeld a a w held))
          (ready-IsHeld a x w other)
  ]

  process-All :
      (a : Alert) (w : World) (xs : List Alert)
      → a.delivery_status ≢ delivered
      → IsHeld w a
      → All (IsHeld w) xs
      → All (IsHeld (process_alert env cfg a w).1) xs
  process-All a w [] undelivered held h = tt
  process-All a w (x ∷ xs) undelivered held h =
      (process-IsHeld a x w undelivered held h.0, process-All a w xs undelivered held h.1)

  process_all-IsSound :
      (alerts : List Alert) (w : World)
      → All (λ (a : Alert). a.delivery_status ≢ delivered) alerts
      → All (IsHeld w) alerts
      → IsSound w
      → IsSound (process_all env cfg alerts w).1
  unfolding process_all
  process_all-IsSound [] w undelivered held sound = sound
  process_all-IsSound (a ∷ rest) w undelivered held sound =
      let w1 = (process_alert env cfg a w).1 in
      subst (λ (out : Result (Unit {0}) × World). IsSound out.1)
        (sym (process_all-cons env cfg a rest w))
        (process_all-IsSound rest w1 undelivered.1
          (process-All a w rest undelivered.0 held.0 held.1)
          (process-IsSound a w undelivered.0 held.0 sound))

  due-rows :
      (w : World)
      → IsSound w
      → All (λ (a : Alert). row alert_key a.id w.db.alerts ≡ some a) (due_alerts env cfg w.db)
  unfolding due_alerts
  due-rows w sound = All-take _ 50 _ (
      All-sort_by _ _ _ (
        All-select _ _ w.db.alerts
          (All-weaken _ _ w.db.alerts (keyed-rows alert_key w.db.alerts sound.alerts.keyed))))

  due-undelivered :
      (db : Database) → All (λ (a : Alert). a.delivery_status ≢ delivered) (due_alerts env cfg db)
  unfolding due_alerts
  due-undelivered db =
      All-take _ 50 _ (All-sort_by _ _ _ (All-select _ _ db.alerts (open_rows db.alerts)))
    where
      open_rows :
          (xs : List Alert)
          → All
              (λ (a : Alert).
                (is_pending a.delivery_status && ltb a.delivery_attempts cfg.retry_backoff_max)
                  ≡ true
                → a.delivery_status ≢ delivered)
              xs
      open_rows [] = tt
      open_rows (x ∷ xs) = ((λ h e. ground arith), open_rows xs)

  pub pass-IsSound : (w : World) → IsSound w → IsSound (process_pending_alerts env cfg w).1
  unfolding process_pending_alerts
  pass-IsSound w sound =
      process_all-IsSound (due_alerts env cfg w.db) w (due-undelivered w.db)
        (rows-IsHeld w (due_alerts env cfg w.db) (due-rows w sound)) sound

  round-IsSound :
      (out : Result (Unit {0}) × World) (w : World)
      → IsSound out.1
      → IsSound (except (λ (_ : World). out) (λ _. rollback) w).1
  round-IsSound (ok done, u) w sound = sound
  round-IsSound (err e, u) w sound = (durable-IsSound u sound).1

  -- A round of the scheduler returns, whatever its pass does.
  round-runs :
      (out : Result (Unit {0}) × World) (w : World)
      → (except (λ (_ : World). out) (λ _. rollback) w).0 ≡ ok tt
  round-runs (ok done, u) w = refl
  round-runs (err e, u) w = refl

  pub scheduler-IsSound :
      (rounds : ℕ) (w : World)
      → IsSound w
      → ((retry_scheduler env cfg rounds w).0 ≡ ok tt)
        × IsSound (retry_scheduler env cfg rounds w).1
  unfolding retry_scheduler
  scheduler-IsSound zero w sound = (refl, sound)
  scheduler-IsSound (suc rounds) w sound =
      let out = process_pending_alerts env cfg w in
      let round = except (process_pending_alerts env cfg) (λ _. rollback) in
      let later =
        scheduler-IsSound rounds (round w).1 (round-IsSound out w (pass-IsSound w sound)) in
      subst (λ (end_ : Result (Unit {0}) × World). (end_.0 ≡ ok tt) × IsSound end_.1)
        (sym (then-runs round (retry_scheduler env cfg rounds) w (round-runs out w))) later
