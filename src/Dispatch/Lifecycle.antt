-- ===== src/Dispatch/Lifecycle.antt =====
-- The promise of worker/dispatch/: what can become of an alert, and that the dispatcher and the retry
-- scheduler keep to it.
use hyperliquid_trading_aler.Prelude.{
  ℕ, ◌+◌, ◌≤◌, ◌<◌, ◌≡◌, refl, sym, ap, subst, ◌∙◌, ◌⊎◌, inl, inr, Bool-cases, Option-cases, false,
  Option, none, some, arith, ◌==◌, true, leb, if◌then◌else◌, Bool, tests,
}
use hyperliquid_trading_aler.Config.{WorkerSettings}
use hyperliquid_trading_aler.Db.{Env, World, Database}
use hyperliquid_trading_aler.Db.Rows.{Rule, Alert, DeliveryStatus, pending, delivered}
use hyperliquid_trading_aler.Db.Table.{row, IsKeyed, row-update_self, row-update_ne, update}
use hyperliquid_trading_aler.Dispatch.{dispatch}
use hyperliquid_trading_aler.Dispatch.Outcome.{
  alert_key, rule_key, took, dispatched, dispatch_by_alerts, dispatch-found, dispatch-missing,
}
use hyperliquid_trading_aler.Dispatch.Retry.{process_alert, process_pending_alerts, verdict}
use hyperliquid_trading_aler.Dispatch.Retry.Turn.{waits, ready_db, turn_row, process-waits}
use hyperliquid_trading_aler.Dispatch.Retry.Settle.{turn-row}
use hyperliquid_trading_aler.Dispatch.Retry.Pass.{IsDue}
use hyperliquid_trading_aler.Dispatch.Retry.Place.{pass-place}

==→≡ : (a b : ℕ) → (a == b) ≡ true → a ≡ b
==→≡ a b h = ground arith

-- Where an alert stands, after so many attempts.
pub data Phase : Type 0 where
  open_after delivered_after failed_after : ℕ → Phase

abbrev pub phase : DeliveryStatus → ℕ → Phase
phase pending n = open_after n
phase delivered n = delivered_after n
phase DeliveryStatus.failed n = failed_after n

abbrev pub phase_of : Alert → Phase
phase_of a = phase a.delivery_status a.delivery_attempts

-- The moves that are promised, with `limit` attempts: only an open alert moves, every attempt counts
-- one, an attempt that fails leaves attempts or closes the alert, and an alert that has lost its rule
-- is closed without one.
pub data Move (limit : ℕ) : Phase → Phase → Type 0 where
  succeeds : (n : ℕ) → Move limit (open_after n) (delivered_after (n + 1))
  retries : (n : ℕ) → n + 1 < limit → Move limit (open_after n) (open_after (n + 1))
  gives_up : (n : ℕ) → limit ≤ n + 1 → Move limit (open_after n) (failed_after (n + 1))
  orphaned : (n : ℕ) → Move limit (open_after n) (failed_after n)

pub data Moves (limit : ℕ) : Phase → Phase → Type 0 where
  rest : {p : Phase} → Moves limit p p
  onward : {p q r : Phase} → Move limit p q → Moves limit q r → Moves limit p r

-- No move, or one.
abbrev Stays : ℕ → Phase → Phase → Type 0
Stays limit p q = (q ≡ p) ⊎ Move limit p q

module _ (env : Env) (cfg : WorkerSettings) where
  -- The system as an alert `k` sees it: the dispatch of some new alert, a pass of the scheduler, and
  -- whatever else leaves the row of `k` alone, in any order.
  pub data Run (k : ℕ) : World → World → Type 0 where
    done : {w : World} → Run k w w
    dispatches :
        {w u : World} (a : Alert)
        → row alert_key a.id w.db.alerts ≡ some a
        → phase_of a ≡ open_after 0
        → Run k (dispatch env a w).1 u
        → Run k w u
    passes :
        {w u : World}
        → IsKeyed alert_key w.db.alerts
        → Run k (process_pending_alerts env cfg w).1 u
        → Run k w u
    other :
        {w v u : World}
        → row alert_key k v.db.alerts ≡ row alert_key k w.db.alerts
        → Run k v u
        → Run k w u

  verdict-Move :
      (took_ : Bool) (n : ℕ)
      → Move cfg.retry_backoff_max
          (open_after n)
          (phase (verdict cfg took_ (n + 1) pending) (n + 1))
  verdict-Move true n = succeeds n
  verdict-Move false n = elim (Bool-cases (leb cfg.retry_backoff_max (n + 1))) [
    | inl spent ↦ rw spent (gives_up n (omega tests))
    | inr left ↦ rw left (retries n (ground arith))
  ]

  turn_row-Move :
      (a : Alert) (w : World) (found : Option Rule)
      → IsDue cfg a
      → Move cfg.retry_backoff_max (phase_of a) (phase_of (turn_row env cfg a w found))
  turn_row-Move a w none due =
      subst
        (λ s.
          Move cfg.retry_backoff_max (phase s a.delivery_attempts)
            (failed_after a.delivery_attempts))
        (sym due.0) (orphaned a.delivery_attempts)
  turn_row-Move a w (some r) due =
      subst
        (λ s. Move cfg.retry_backoff_max (phase s a.delivery_attempts) (
          phase (verdict cfg (took env a r w.sent) (a.delivery_attempts + 1) s)
            (a.delivery_attempts + 1)))
        (sym due.0) (verdict-Move (took env a r w.sent) a.delivery_attempts)

  waiting-row :
      (k : ℕ) (a : Alert) (v : World)
      → waits env cfg a v ≡ true
      → row alert_key k v.db.alerts ≡ some a
      → row alert_key k (process_alert env cfg a v).1.db.alerts ≡ some a
  waiting-row k a v early here =
      rw (process-waits env cfg a v early)
        (ap (λ (db : Database). row alert_key k db.alerts) (ready_db env cfg a v).0 ∙ here)

  pass-Stays :
      (k : ℕ) (w : World) {a : Alert}
      → IsKeyed alert_key w.db.alerts
      → row alert_key k w.db.alerts ≡ some a
      → (b : Alert) × (row alert_key k (process_pending_alerts env cfg w).1.db.alerts ≡ some b)
        × Stays cfg.retry_backoff_max (phase_of a) (phase_of b)
  pass-Stays k w {a} keyed found = elim (pass-place env cfg k w keyed found) [
    | inl (no_, same) ↦ (a, same, inl refl)
    | inr (due, v, _, here, e) ↦ (elim (Bool-cases (waits env cfg a v)) [
      | inl early ↦ (a, e ∙ waiting-row k a v early here, inl refl)
      | inr ready ↦
          (let found' = row rule_key a.rule_id v.db.rules in
            (
              turn_row env cfg a v found',
              e ∙ turn-row env cfg k a v here ready,
              inr (turn_row-Move a v found' due),
            ))
    ])
  ]

  open-phase :
      (s : DeliveryStatus) (n : ℕ) {m : ℕ} → phase s n ≡ open_after m → (s ≡ pending) × (n ≡ m)
  open-phase pending n e = (refl, cc)
  open-phase delivered n e = absurd (cc)
  open-phase DeliveryStatus.failed n e = absurd (cc)

  first-Move :
      (took_ : Bool) (n : ℕ)
      → n + 1 < cfg.retry_backoff_max
      → Move cfg.retry_backoff_max
          (open_after n)
          (phase (if took_ then delivered else pending) (n + 1))
  first-Move true n room = succeeds n
  first-Move false n room = retries n room

  dispatched-Move :
      (a : Alert) (r : Rule) (w : World)
      → 1 < cfg.retry_backoff_max
      → phase_of a ≡ open_after 0
      → Move cfg.retry_backoff_max (phase_of a) (phase_of (dispatched env a r w))
  dispatched-Move a r w room new =
      let (unsettled, none_yet) = open-phase a.delivery_status a.delivery_attempts new in
      subst
        (λ s.
          Move cfg.retry_backoff_max (phase s a.delivery_attempts)
            (phase_of (dispatched env a r w)))
        (sym unsettled) (first-Move (took env a r w.sent) a.delivery_attempts (omega arith))

  same_row :
      (k : ℕ) (d : Alert) (w : World) {a : Alert}
      → row alert_key d.id w.db.alerts ≡ some d
      → row alert_key k w.db.alerts ≡ some a
      → d.id ≡ k
      → d ≡ a
  same_row k d w known found same = let e = ap (λ j. row alert_key j w.db.alerts) same in cc

  dispatch-Stays :
      (k : ℕ) (d : Alert) (w : World) {a : Alert}
      → 1 < cfg.retry_backoff_max
      → row alert_key d.id w.db.alerts ≡ some d
      → phase_of d ≡ open_after 0
      → row alert_key k w.db.alerts ≡ some a
      → (b : Alert) × (row alert_key k (dispatch env d w).1.db.alerts ≡ some b)
        × Stays cfg.retry_backoff_max (phase_of a) (phase_of b)
  dispatch-Stays k d w {a} room known new found =
      elim (Option-cases (row rule_key d.rule_id w.db.rules)) [
        | inl gone ↦ (a, rw (dispatch-missing env d w gone) found, inl refl)
        | inr (r, here) ↦ (elim (Bool-cases (d.id == k)) [
          | inl same ↦ (
            dispatched env d r w,
            rw (dispatch-found env d w here, dispatch_by_alerts env d r w)
                (subst
                  (λ j.
                    row alert_key j (update alert_key (dispatched env d r w) w.db.alerts)
                    ≡ some (dispatched env d r w))
                  (==→≡ d.id k same)
                  (row-update_self alert_key (dispatched env d r w) w.db.alerts known)),
            inr (
                subst
                  (λ x. Move cfg.retry_backoff_max (phase_of x) (phase_of (dispatched env d r w)))
                  (same_row k d w known found (==→≡ d.id k same)) (dispatched-Move d r w room new)),
          )
          | inr differs ↦ (
            a,
            rw (dispatch-found env d w here, dispatch_by_alerts env d r w)
                (row-update_ne alert_key k (dispatched env d r w) w.db.alerts (λ e. ground arith)
                  ∙ found),
            inl refl,
          )
        ])
      ]

  -- One move more at the front.
  extend : {limit : ℕ} {p q r : Phase} → Stays limit p q → Moves limit q r → Moves limit p r
  extend {limit} {r = r} (inl same) more = subst (λ x. Moves limit x r) same more
  extend (inr move) more = onward move more

  -- Whatever runs in whatever order, between the dispatches of new alerts, passes of the retry
  -- scheduler over alerts with distinct identifiers and changes that leave an alert's row alone,
  -- the row of a stored alert stays, and it goes from phase to phase only by the promised moves,
  -- given that more than one attempt is allowed.
  pub Run-Moves :
      {k : ℕ} {w u : World} (a : Alert)
      → 1 < cfg.retry_backoff_max
      → Run k w u
      → row alert_key k w.db.alerts ≡ some a
      → (b : Alert) × (row alert_key k u.db.alerts ≡ some b)
        × Moves cfg.retry_backoff_max (phase_of a) (phase_of b)
  Run-Moves a room done found = (a, found, rest)
  Run-Moves {k} {w} a room (dispatches d known new more) found =
      let (b, here, step) = dispatch-Stays k d w room known new found in
      let (c, there, moves) = Run-Moves b room more here in (c, there, extend step moves)
  Run-Moves {k} {w} a room (passes keyed more) found =
      let (b, here, step) = pass-Stays k w keyed found in
      let (c, there, moves) = Run-Moves b room more here in (c, there, extend step moves)
  Run-Moves a room (other same more) found = Run-Moves a room more (same ∙ found)
