-- ===== src/Dispatch/Retry/Progress.antt =====
-- Every alert that the retry scheduler keeps selecting is settled in the end (worker/dispatch/retry.py).
use hyperliquid_trading_aler.Prelude.{
  ℕ, suc, ◌+◌, ◌≤◌, ◌≡◌, ◌≢◌, refl, ◌∙◌, inl, inr, false, Option-cases, none, some, List, [], ◌∷◌,
  arith, All, ok,
}
use hyperliquid_trading_aler.Config.{WorkerSettings}
use hyperliquid_trading_aler.Db.{Env, World}
use hyperliquid_trading_aler.Db.Rows.{Alert, pending}
use hyperliquid_trading_aler.Db.Table.{row, IsKeyed}
use hyperliquid_trading_aler.Dispatch.Outcome.{alert_key, rule_key}
use hyperliquid_trading_aler.Dispatch.Retry.{is_waiting, due_alerts, process_pending_alerts}
use hyperliquid_trading_aler.Dispatch.Retry.Backoff.{IsUniform, not_waiting}
use hyperliquid_trading_aler.Dispatch.Retry.Turn.{waits, turn_now, begun, turn_row}
use hyperliquid_trading_aler.Dispatch.Retry.Settle.{turn-row, after_turn}
use hyperliquid_trading_aler.Dispatch.Retry.Pass.{IsDue, pass-settled}
use hyperliquid_trading_aler.Dispatch.Retry.Place.{pass-place}

absent : (k : ℕ) (t : List Alert) → All (λ b. b.id ≢ k) t → row alert_key k t ≡ none
absent k [] h = refl
absent k (x ∷ t) h = ground (arith, absent k t h.1, h.0)

module _ (env : Env) (cfg : WorkerSettings) where
  -- From now on the clock reads at least 48 seconds after the alert's last attempt, if it has one.
  abbrev pub IsLate : Alert → World → Type 0
  IsLate a w =
      (last : ℕ)
      → a.last_delivery_attempt ≡ some last
      → (t : ℕ) → w.ticks ≤ t
      → last + 48000000 ≤ env.clock t

  -- `Passes k n w u`: n passes of the scheduler. While alert `k` is pending, each pass begins late and
  -- selects it. Between passes anything may happen that leaves its row alone.
  pub data Passes (k : ℕ) : ℕ → World → World → Type 0 where
    done : {w : World} → Passes k 0 w w
    other :
        {n : ℕ} {w v u : World}
        → row alert_key k v.db.alerts ≡ row alert_key k w.db.alerts
        → Passes k n v u
        → Passes k n w u
    pass :
        {n : ℕ} {w u : World}
        → IsKeyed alert_key w.db.alerts
        → ((a : Alert)
            → row alert_key k w.db.alerts ≡ some a
            → a.delivery_status ≡ pending
            → (row alert_key k (due_alerts env cfg w.db) ≢ none) × IsLate a w)
        → Passes k n (process_pending_alerts env cfg w).1 u
        → Passes k (suc n) w u

  module _ (uniform : IsUniform env) where
    waiting_of :
        (a : Alert) (w : World)
        → (is_waiting env a (turn_now env cfg a w) (begun env cfg a w)).0 ≡ ok false
        → waits env cfg a w ≡ false
    waiting_of a w h = ground arith

    first_not_waiting :
        (a : Alert) (now : ℕ) (w : World)
        → a.last_delivery_attempt ≡ none
        → (is_waiting env a now w).0 ≡ ok false
    unfolding is_waiting
    first_not_waiting a now w new = ground arith

    late-waits :
        (a : Alert) (w v : World) → w.ticks ≤ v.ticks → IsLate a w → waits env cfg a v ≡ false
    late-waits a w v after late = elim (Option-cases a.last_delivery_attempt) [
      | inl new ↦ waiting_of a v (first_not_waiting a _ _ new)
      | inr (last, seen) ↦
          waiting_of a v (not_waiting env uniform a _ last _ seen (late last seen v.ticks after))
    ]

    -- The row after a pass that selects the alert late.
    pass_turn :
        (k : ℕ) (w : World) {a : Alert}
        → IsKeyed alert_key w.db.alerts
        → row alert_key k w.db.alerts ≡ some a
        → row alert_key k (due_alerts env cfg w.db) ≢ none
        → IsLate a w
        → (v : World) × (row alert_key k (process_pending_alerts env cfg w).1.db.alerts
            ≡ some (turn_row env cfg a v (row rule_key a.rule_id v.db.rules)))
    pass_turn k w {a} keyed found chosen late = elim (pass-place env cfg k w keyed found) [
      | inl (no_, _) ↦ absurd (chosen (absent k _ no_))
      | inr (_, v, after, here, e) ↦
          (v, e ∙ turn-row env cfg k a v here (late-waits a w v after late))
    ]

    settled-Passes :
        {k n : ℕ} {w u : World} (a : Alert)
        → Passes k n w u
        → row alert_key k w.db.alerts ≡ some a
        → a.delivery_status ≢ pending
        → row alert_key k u.db.alerts ≡ some a
    settled-Passes a done found closed = found
    settled-Passes a (other same more) found closed = settled-Passes a more (same ∙ found) closed
    settled-Passes {k} {w = w} a (pass keyed _ more) found closed =
        settled-Passes a more (pass-settled env cfg k w keyed found (λ due. closed due.0)).1 closed

    -- A pending alert with attempts left is settled, delivered or failed, once the scheduler has
    -- made as many passes as it has attempts left, whatever happens between them that leaves its row
    -- alone, given that while it is pending each pass selects it (it is among the 50 oldest), begins
    -- at least 48 seconds after its last attempt and meets alerts with distinct identifiers, and
    -- that the random jitter stays within its bounds.
    pub Passes-settle :
        {k n : ℕ} {w u : World} (a : Alert)
        → Passes k n w u
        → row alert_key k w.db.alerts ≡ some a
        → IsDue cfg a
        → cfg.retry_backoff_max ≤ a.delivery_attempts + n
        → (b : Alert) × (row alert_key k u.db.alerts ≡ some b) × (b.delivery_status ≢ pending)
    Passes-settle a done found due spent = absurd (omega (arith, due.1))
    Passes-settle a (other same more) found due spent =
        Passes-settle a more (same ∙ found) due spent
    Passes-settle {k} {n} {w} a (pass keyed fair more) found due spent =
        let (chosen, late) = fair a found due.0 in
        let (v, next) = pass_turn k w keyed found chosen late in
        let y = turn_row env cfg a v (row rule_key a.rule_id v.db.rules) in
        elim (after_turn env cfg k a v (row rule_key a.rule_id v.db.rules)) [
          | inl closed ↦ (y, settled-Passes y more next closed, closed)
          | inr (open_, counted, left) ↦
              Passes-settle y more next (open_, omega arith) (omega arith)
        ]
