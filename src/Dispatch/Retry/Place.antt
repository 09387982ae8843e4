-- ===== src/Dispatch/Retry/Place.antt =====
-- The one turn that a pass of the retry scheduler (worker/dispatch/retry.py) gives an alert.
use hyperliquid_trading_aler.Prelude.{
  ℕ, ◌+◌, ◌≤◌, ◌≡◌, ◌≢◌, refl, ◌∙◌, sym, subst, ◌⊎◌, true, false, none, some, List, [], ◌∷◌, ◌++◌,
  arith, All, All-take, All-sort_by, All-select, All-weaken, ok, Bool-cases, Option-cases, inl, inr,
  suc, ap, ltb, ◌&&◌, select, sort_by, Result,
}
use hyperliquid_trading_aler.Config.{WorkerSettings}
use hyperliquid_trading_aler.Db.{Env, World, Database}
use hyperliquid_trading_aler.Db.Rows.{Rule, Alert, is_pending}
use hyperliquid_trading_aler.Db.Table.{row, IsKeyed}
use hyperliquid_trading_aler.Db.Table.Once.{
  count-Once, count-take, count-sort_by, count-select, IsKeyed-count, only, count,
}
use hyperliquid_trading_aler.Dispatch.Outcome.{alert_key, rule_key}
use hyperliquid_trading_aler.Dispatch.Retry.{
  is_waiting, attempt_delivery, process_alert, process_all, due_alerts, process_pending_alerts,
}
use hyperliquid_trading_aler.Dispatch.Retry.Turn.{
  waits, ready, turn_now, process-waits, process-attempts, is_waiting-ok, ready_db, begun,
}
use hyperliquid_trading_aler.Dispatch.Retry.Pass.{
  IsDue, selected-IsDue, process-others, process_all-others,
}

All-middle :
    {A : Type 0} (P : A → Type 0) (before : List A) (x : A) (after : List A)
    → All P (before ++ x ∷ after)
    → P x
All-middle P [] x after h = h.0
All-middle P (y ∷ before) x after h = All-middle P before x after h.1

module _ (env : Env) (cfg : WorkerSettings) where
  every_opens :
      (t : List Alert)
      → All
          (λ (b : Alert).
            (is_pending b.delivery_status && ltb b.delivery_attempts cfg.retry_backoff_max) ≡ true
            → IsDue cfg b)
          t
  every_opens [] = tt
  every_opens (b ∷ t) = (selected-IsDue env cfg b, every_opens t)

  due_alerts-Once :
      (k : ℕ) (db : Database) {a : Alert}
      → IsKeyed alert_key db.alerts
      → row alert_key k db.alerts ≡ some a
      → All (λ b. b.id ≢ k) (due_alerts env cfg db)
        ⊎ (IsDue cfg a
            × (before : List Alert) × (after : List Alert) × (due_alerts env cfg db
                ≡ before ++ a ∷ after)
            × All (λ b. b.id ≢ k) before
            × All (λ b. b.id ≢ k) after)
  unfolding due_alerts
  due_alerts-Once k db {a} keyed found =
      let opens = λ (b : Alert).
        is_pending b.delivery_status && ltb b.delivery_attempts cfg.retry_backoff_max in
      let made = λ (b : Alert). b.created_at in
      let chosen = select opens db.alerts in
      let bound : count alert_key k (due_alerts env cfg db) ≤ 1 = omega (
        arith,
        IsKeyed-count alert_key k db.alerts keyed,
        count-select alert_key opens k db.alerts,
        count-sort_by alert_key made k chosen,
        count-take alert_key 50 k (sort_by made chosen),
      ) in
      let all_due : All (IsDue cfg) (due_alerts env cfg db) = All-take (IsDue cfg) 50 _ (
        All-sort_by (IsDue cfg) made _
          (All-select (IsDue cfg) opens db.alerts (every_opens db.alerts))) in
      let all_only : All (λ b. b.id ≡ k → b ≡ a) (due_alerts env cfg db) = All-take _ 50 _ (
        All-sort_by _ made _ (
          All-select _ opens db.alerts
            (All-weaken _ opens db.alerts (only alert_key k db.alerts keyed found)))) in
      elim (count-Once alert_key k (due_alerts env cfg db) bound) [
        | inl no_ ↦ inl no_
        | inr (x, before, after, e, here, b, c) ↦
            (let same : x ≡ a =
                All-middle (λ b. b.id ≡ k → b ≡ a) before x after
                  (subst (All (λ b. b.id ≡ k → b ≡ a)) e all_only) here in
              inr (
                subst (IsDue cfg) same
                    (All-middle (IsDue cfg) before x after (subst (All (IsDue cfg)) e all_due)),
                before,
                after,
                e ∙ ap (λ y. before ++ y ∷ after) same,
                b,
                c,
              ))
      ]

  is_waiting-ticks : (a : Alert) (now : ℕ) (w : World) → (is_waiting env a now w).1.ticks ≡ w.ticks
  unfolding is_waiting
  is_waiting-ticks a now w = ground arith

  attempt-ticks :
      (a : Alert) (r : Rule) (now : ℕ) (w : World)
      → w.ticks ≤ (attempt_delivery env cfg a r now w).1.ticks
  unfolding attempt_delivery
  attempt-ticks a r now w = ground arith

  orphan-ticks :
      (a : Alert) (w : World)
      → waits env cfg a w ≡ false
      → row rule_key a.rule_id w.db.rules ≡ none
      → (process_alert env cfg a w).1.ticks ≡ w.ticks + 1
  unfolding process_alert
  orphan-ticks a w due gone = ground (
    arith,
    is_waiting-ok env cfg a w,
    ready_db env cfg a w,
    is_waiting-ticks a (turn_now env cfg a w) (begun env cfg a w),
  )

  process-ticks : (a : Alert) (w : World) → w.ticks ≤ (process_alert env cfg a w).1.ticks
  process-ticks a w =
      let read = is_waiting-ticks a (turn_now env cfg a w) (begun env cfg a w) in
      elim (Bool-cases (waits env cfg a w)) [
        | inl early ↦ rw (process-waits env cfg a w early) (omega arith)
        | inr due ↦ (elim (Option-cases (row rule_key a.rule_id w.db.rules)) [
          | inl gone ↦ rw (orphan-ticks a w due gone) (omega arith)
          | inr (r, found) ↦
              rw (process-attempts env cfg a w due found)
                (omega (arith, attempt-ticks a r (turn_now env cfg a w) (ready env cfg a w)))
        ])
      ]

  process-ok : (a : Alert) (w : World) → (process_alert env cfg a w).0 ≡ ok tt
  process-ok a w = (process-others env cfg a (suc a.id) w (λ e. omega arith)).0

  pub process_all-cons :
      (a : Alert) (rest : List Alert) (w : World)
      → process_all env cfg (a ∷ rest) w ≡ process_all env cfg rest (process_alert env cfg a w).1
  unfolding process_all
  process_all-cons a rest w = let fine = process-ok a w in ground arith

  process_all-ticks :
      (alerts : List Alert) (w : World) → w.ticks ≤ (process_all env cfg alerts w).1.ticks
  unfolding process_all
  process_all-ticks [] w = omega arith
  process_all-ticks (a ∷ rest) w =
      rw (process_all-cons a rest w)
        (omega (arith, process-ticks a w, process_all-ticks rest (process_alert env cfg a w).1))

  process_all-append :
      (before after : List Alert) (w : World)
      → process_all env cfg (before ++ after) w
        ≡ process_all env cfg after (process_all env cfg before w).1
  unfolding process_all
  process_all-append [] after w = refl
  process_all-append (a ∷ before) after w =
      process_all-cons a (before ++ after) w
      ∙ process_all-append before after (process_alert env cfg a w).1
      ∙ ap (λ (out : Result (Unit {0}) × World). process_all env cfg after out.1)
          (sym (process_all-cons a before w))

  -- The row of an alert after a pass: it had no turn, or one, with the row as it was before the pass,
  -- in a world that the pass had come to.
  pub pass-place :
      (k : ℕ) (w : World) {a : Alert}
      → IsKeyed alert_key w.db.alerts
      → row alert_key k w.db.alerts ≡ some a
      → let w' = (process_pending_alerts env cfg w).1 in
        (All (λ b. b.id ≢ k) (due_alerts env cfg w.db) × (row alert_key k w'.db.alerts ≡ some a))
        ⊎ (IsDue cfg a
            × (v : World) × (w.ticks ≤ v.ticks)
            × (row alert_key k v.db.alerts ≡ some a)
            × (row alert_key k w'.db.alerts
                ≡ row alert_key k (process_alert env cfg a v).1.db.alerts))
  unfolding process_pending_alerts
  pass-place k w {a} keyed found = elim (due_alerts-Once k w.db keyed found) [
    | inl no_ ↦ inl (no_, (process_all-others env cfg (due_alerts env cfg w.db) k w no_).1 ∙ found)
    | inr (due, before, after, e, b, c) ↦
        (let v = (process_all env cfg before w).1 in
          inr (
            due,
            v,
            process_all-ticks before w,
            (process_all-others env cfg before k w b).1 ∙ found,
            ap (λ alerts. row alert_key k (process_all env cfg alerts w).1.db.alerts) e
                ∙ ap (λ (out : Result (Unit {0}) × World). row alert_key k out.1.db.alerts)
                    (process_all-append before (a ∷ after) w ∙ process_all-cons a after v)
                ∙ (process_all-others env cfg after k (process_alert env cfg a v).1 c).1,
          ))
  ]
