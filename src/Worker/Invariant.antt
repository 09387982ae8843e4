-- ===== src/Worker/Invariant.antt =====
-- The invariant of the worker (worker/main.py): what every step of the main loop keeps.
use hyperliquid_trading_aler.Prelude.{
  ◌≡◌, refl, sym, subst, ◌∙◌, none, some, Result, ok, List, [], ◌∷◌, arith, find, Option-cases, inl,
  inr, Exn, err, type_error,
}
use hyperliquid_trading_aler.Numerics.{Numerics}
use hyperliquid_trading_aler.Db.{Env, World, Database}
use hyperliquid_trading_aler.Db.Rows.{Rule, Alert, CandleModel}
use hyperliquid_trading_aler.Db.Table.{row}
use hyperliquid_trading_aler.Ingest.Market.{Candle}
use hyperliquid_trading_aler.Evaluate.Engine.{evaluate}
use hyperliquid_trading_aler.Evaluate.Engine.Windows.{IsUnique, update-IsUnique}
use hyperliquid_trading_aler.Evaluate.Engine.Outcome.{evaluate_outcome, alert-IsWindowed}
use hyperliquid_trading_aler.Dispatch.{dispatch, dispatch_by}
use hyperliquid_trading_aler.Dispatch.Outcome.{
  alert_key, rule_key, dispatch_by_alerts, dispatch_by_ok, dispatch_by_durable, dispatch-found,
  dispatch-missing,
}
use hyperliquid_trading_aler.Worker.{same_candle, process_rule}

-- No two stored candles share symbol, time and interval.
abbrev pub IsDistinct : List CandleModel → Type 0
IsDistinct [] = Unit
IsDistinct (c ∷ t) = (find (same_candle c) t ≡ none) × IsDistinct t

-- Between the steps of the loop everything is committed, the two unique constraints hold, and the window
-- of each alert is the minute in which it was triggered.
pub record IsConsistent (w : World) : Type 0 where
  pub durable : w.committed ≡ w.db
  pub alerts : IsUnique w.db.alerts
  pub candles : IsDistinct w.db.candles

-- What a step of the loop shows: it returned, and the invariant holds after it.
abbrev pub Kept : {A : Type 0} → A → Result A × World → Type 0
Kept a (r, w') = (r ≡ ok a) × IsConsistent w'

module _ (env : Env) where
  dispatch_by_candles :
      (a : Alert) (r : Rule) (w : World) → (dispatch_by env a r w).1.db.candles ≡ w.db.candles
  unfolding dispatch_by
  dispatch_by_candles a r w = ground arith

  pub dispatch-Kept :
      (a : Alert) (w : World)
      → row alert_key a.id w.db.alerts ≡ some a
      → IsConsistent w
      → Kept tt (dispatch env a w)
  dispatch-Kept a w known kept = elim (Option-cases (row rule_key a.rule_id w.db.rules)) [
    | inl gone ↦ rw (dispatch-missing env a w gone) (refl, kept)
    | inr (r, found) ↦ rw (dispatch-found env a w found) (
      dispatch_by_ok env a r w,
      record {
        durable = dispatch_by_durable env a r w;
        alerts = rw (dispatch_by_alerts env a r w) (
            update-IsUnique _ w.db.alerts known
              (record { rule = refl; start = refl; end_ = refl; triggered = refl }) kept.alerts);
        candles = rw (dispatch_by_candles a r w) kept.candles;
      },
    )
  ]

module _ (env : Env) (num : Numerics) where
  pub process_rule-none :
      (candle : Candle num) (rule : Rule) (w : World)
      → (evaluate env num rule candle w).0 ≡ ok none
      → process_rule env num candle rule w ≡ (ok tt, (evaluate env num rule candle w).1)
  unfolding process_rule
  process_rule-none candle rule w quiet = ground arith

  pub process_rule-some :
      (candle : Candle num) (rule : Rule) (w : World) (a : Alert)
      → (evaluate env num rule candle w).0 ≡ ok (some a)
      → (dispatch env a (evaluate env num rule candle w).1).0 ≡ ok tt
      → process_rule env num candle rule w ≡ dispatch env a (evaluate env num rule candle w).1
  unfolding process_rule
  process_rule-some candle rule w a fired fine = ground arith

  pub process_rule-err :
      (candle : Candle num) (rule : Rule) (w : World) (e : Exn)
      → (evaluate env num rule candle w).0 ≡ err e
      → let w' = (evaluate env num rule candle w).1 in
        process_rule env num candle rule w ≡ (ok tt, record w' { db = w'.committed })
  unfolding process_rule
  process_rule-err candle rule w e raised = ground arith

  pub process_rule-Kept :
      (candle : Candle num) (rule : Rule) (w : World)
      → IsConsistent w
      → Kept tt (process_rule env num candle rule w)
  process_rule-Kept candle rule w kept = elim (evaluate_outcome env num rule candle w) [
    | inl (quiet, same, durable) ↦ rw (process_rule-none candle rule w quiet) (
      refl,
      record {
        durable = durable ∙ kept.durable ∙ sym same;
        alerts = subst (λ (db : Database). IsUnique db.alerts) (sym same) kept.alerts;
        candles = subst (λ (db : Database). IsDistinct db.candles) (sym same) kept.candles;
      },
    )
    | inr (inr (raised, _, _, same, durable)) ↦
        rw (process_rule-err candle rule w type_error raised) (
          refl,
          record {
            durable = refl;
            alerts =
                subst (λ (db : Database). IsUnique db.alerts) (sym (durable ∙ kept.durable))
                  kept.alerts;
            candles =
                subst (λ (db : Database). IsDistinct db.candles) (sym (durable ∙ kept.durable))
                  kept.candles;
          },
        )
    | inr (inl (a, fired, for_a, added, free, _, durable)) ↦
        (let w' = (evaluate env num rule candle w).1 in
          let kept' : IsConsistent w' = record {
            durable = durable;
            alerts =
                subst (λ (db : Database). IsUnique db.alerts) (sym added)
                  ((free, alert-IsWindowed env num rule candle a for_a), kept.alerts);
            candles = subst (λ (db : Database). IsDistinct db.candles) (sym added) kept.candles;
          } in
          let here : row alert_key a.id w'.db.alerts ≡ some a =
            subst (λ (db : Database). row alert_key a.id db.alerts ≡ some a) (sym added)
              (ground arith) in
          let done = dispatch-Kept env a w' here kept' in
          subst (Kept tt) (sym (process_rule-some candle rule w a fired done.0)) done)
  ]
