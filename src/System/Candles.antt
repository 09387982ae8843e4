-- ===== src/System/Candles.antt =====
-- A candle of the worker (worker/main.py) keeps the invariant of the system.
use hyperliquid_trading_aler.System.Audited.{IsOwned-cons}
use hyperliquid_trading_aler.Prelude.{
  ℕ, ◌+◌, ◌≤◌, ◌≡◌, ◌≢◌, refl, sym, subst, ◌∙◌, inl, inr, Bool-cases, Option, none, some, List, [],
  ◌∷◌, arith, ok, err, Result, String, type_error,
}
use hyperliquid_trading_aler.Config.{WorkerSettings}
use hyperliquid_trading_aler.Numerics.{Numerics}
use hyperliquid_trading_aler.Db.{Env, World, Database, ◌>>◌}
use hyperliquid_trading_aler.Db.Rows.{Rule, Alert, delivered, pending, DeliveryStatus}
use hyperliquid_trading_aler.Db.Table.{row}
use hyperliquid_trading_aler.Db.Table.Numbered.{IsNumbered-cons, IsNumbered-weaken}
use hyperliquid_trading_aler.Dispatch.Outcome.{alert_key, rule_key}
use hyperliquid_trading_aler.Ingest.Market.{Candle}
use hyperliquid_trading_aler.Ingest.Cursor.{update_cursor}
use hyperliquid_trading_aler.Evaluate.Engine.{
  get_idempotency_window, insert_alert, is_in_cooldown, create_alert, settle, evaluate, outcome_of,
}
use hyperliquid_trading_aler.Evaluate.Engine.Outcome.{
  evaluate_outcome, cools, evaluate-considers, considered, cooldown-cases, evaluate-breaks,
  evaluate-cools, alert-IsWindowed,
}
use hyperliquid_trading_aler.Worker.{
  save_candle, process_rule, process_rules, rules_of, process_candle, insert_candle,
}
use hyperliquid_trading_aler.Worker.Invariant.{
  process_rule-none, process_rule-some, process_rule-Kept, dispatch-Kept, process_rule-err,
}
use hyperliquid_trading_aler.Worker.Candles.{save_candle_lem, update_cursor-Kept}
use hyperliquid_trading_aler.Worker.Loop.{then-runs}
use hyperliquid_trading_aler.System.Sound.{IsSound, Leaves, Leaves-IsSound}
use hyperliquid_trading_aler.System.Writes.{dispatch-IsSound}

not_fired : {r : Result (Option Alert)} {a : Alert} → r ≡ ok none → r ≡ ok (some a) → ⊥
not_fired e h = cc

new_undelivered : {s : DeliveryStatus} → s ≡ pending → s ≡ delivered → ⊥
new_undelivered e h = cc

module _ (env : Env) (num : Numerics) where
  -- What `evaluate` does to the counter, and the identifier of a new alert.
  abbrev pub Numbers : World → Result (Option Alert) × World → Type 0
  Numbers w (r, w') =
      (w.fresh ≤ w'.fresh)
      × ((a : Alert) → r ≡ ok (some a) → (a.id ≡ w.fresh) × (w'.fresh ≡ w.fresh + 1))

  create_alert-fresh :
      (rule : Rule) (candle : Candle num) (window : ℕ × ℕ) (value : num.F) (w : World)
      → (create_alert env num rule candle window value w).1.fresh ≡ w.fresh + 1
  unfolding create_alert insert_alert
  create_alert-fresh rule candle window value w = ground arith

  create_alert-id :
      (rule : Rule) (candle : Candle num) (window : ℕ × ℕ) (value : num.F) (w : World) (a : Alert)
      → (create_alert env num rule candle window value w).0 ≡ ok (some a)
      → a.id ≡ w.fresh
  unfolding create_alert insert_alert
  create_alert-id rule candle window value w a e = ground arith

  create_alert-Numbers :
      (rule : Rule) (candle : Candle num) (window : ℕ × ℕ) (value : num.F) (w : World)
      → Numbers w (create_alert env num rule candle window value w)
  create_alert-Numbers rule candle window value w =
      let drawn = create_alert-fresh rule candle window value w in
      (omega arith, λ a e. (create_alert-id rule candle window value w a e, drawn))

  settle-Numbers :
      (rule : Rule) (candle : Candle num) (outcome : Option (Result (Option num.F))) (w : World)
      → Numbers w (settle env num rule candle outcome w)
  unfolding settle
  settle-Numbers rule candle none w = (omega arith, λ a e. absurd (cc))
  settle-Numbers rule candle (some (err e)) w = (omega arith, λ a e. absurd (cc))
  settle-Numbers rule candle (some (ok none)) w = (omega arith, λ a e. absurd (cc))
  settle-Numbers rule candle (some (ok (some value))) w =
      create_alert-Numbers rule candle (get_idempotency_window candle.timestamp) value w

  cooldown-fresh :
      (rule : Rule) (symbol : String) (w : World)
      → (is_in_cooldown env rule symbol w).1.fresh ≡ w.fresh
  unfolding is_in_cooldown
  cooldown-fresh rule symbol w = ground arith

  pub evaluate-Numbers :
      (rule : Rule) (candle : Candle num) (w : World) → Numbers w (evaluate env num rule candle w)
  evaluate-Numbers rule candle w =
      let v = (is_in_cooldown env rule candle.symbol w).1 in
      let same = cooldown-fresh rule candle.symbol w in
      elim (cooldown-cases env num rule candle w) [
        | inl (null, earlier) ↦
            rw (evaluate-breaks env num rule candle w null earlier)
              (omega arith, λ a e. absurd (cc))
        | inr answers ↦ elim (Bool-cases (cools env num rule candle w)) [
          | inl cooling ↦
              rw (evaluate-cools env num rule candle w answers cooling)
                (omega arith, λ a e. absurd (cc))
          | inr free ↦ rw (evaluate-considers env num rule candle w answers free) (
              subst
                (λ n.
                  (n ≤ (considered env num rule candle w).1.fresh)
                  × ((a : Alert)
                      → (considered env num rule candle w).0 ≡ ok (some a)
                      → (a.id ≡ n) × ((considered env num rule candle w).1.fresh ≡ n + 1)))
                same (settle-Numbers rule candle (outcome_of env num rule candle v.db) v))
        ]
      ]

  -- What leaves the database as it was.
  same-IsSound :
      (w w' : World)
      → w.fresh ≤ w'.fresh
      → w'.db ≡ w.db
      → w'.committed ≡ w.committed
      → IsSound w
      → IsSound w'
  same-IsSound w w' grows same durable sound =
      Leaves-IsSound w w'
        (record {
          alerts = rw same refl;
          rules = rw same refl;
          attempts = rw same refl;
          fresh = grows;
        })
        (record {
          durable = durable ∙ sound.consistent.durable ∙ sym same;
          alerts = rw same sound.consistent.alerts;
          candles = rw same sound.consistent.candles;
        })
        sound

  evaluate-IsSound :
      (rule : Rule) (candle : Candle num) (w : World)
      → IsSound w
      → IsSound (evaluate env num rule candle w).1
  evaluate-IsSound rule candle w sound =
      let w' = (evaluate env num rule candle w).1 in
      let (grows, drawn) = evaluate-Numbers rule candle w in
      elim (evaluate_outcome env num rule candle w) [
        | inl (quiet, same, durable) ↦ same-IsSound w w' grows same durable sound
        | inr (inr (_, _, _, same, durable)) ↦ same-IsSound w w' grows same durable sound
        | inr (inl (a, fired, for_a, added, free, known, durable)) ↦
            (let (numbered, next) = drawn a fired in
              record {
                consistent = record {
                  durable = durable;
                  alerts = rw added (
                    (free, alert-IsWindowed env num rule candle a for_a),
                    sound.consistent.alerts,
                  );
                  candles = rw added sound.consistent.candles;
                };
                alerts = rw added (
                    IsNumbered-cons alert_key w.fresh w'.fresh a w.db.alerts numbered (omega arith)
                      sound.alerts);
                rules =
                    rw added
                      (IsNumbered-weaken rule_key w.fresh w'.fresh w.db.rules grows sound.rules);
                linked = rw added (
                  subst (λ k. row rule_key k w.db.rules ≢ none) (sym for_a.rule_id) known,
                  sound.linked,
                );
                owned = rw added (IsOwned-cons a w.db.alerts w.db.attempts sound.owned);
                audited =
                    rw added ((λ e. absurd (new_undelivered for_a.undelivered.0 e)), sound.audited);
              })
      ]

  process_rule-IsSound :
      (candle : Candle num) (rule : Rule) (w : World)
      → IsSound w
      → IsSound (process_rule env num candle rule w).1
  process_rule-IsSound candle rule w sound =
      let w' = (evaluate env num rule candle w).1 in
      let sound' = evaluate-IsSound rule candle w sound in
      elim (evaluate_outcome env num rule candle w) [
        | inl (quiet, _, _) ↦ rw (process_rule-none env num candle rule w quiet) sound'
        | inr (inr (raised, _, _, same, durable)) ↦
            (let back = durable ∙ sound.consistent.durable in
              rw (process_rule-err env num candle rule w type_error raised) (
                same-IsSound w' (record w' { db = w'.committed }) (omega arith) (back ∙ sym same)
                  refl sound'))
        | inr (inl (a, fired, _, added, _, _, _)) ↦
            (let here : row alert_key a.id w'.db.alerts ≡ some a =
                subst (λ (db : Database). row alert_key a.id db.alerts ≡ some a) (sym added)
                  (ground arith) in
              let (fine, _) = dispatch-Kept env a w' here sound'.consistent in
              subst (λ (out : Result (Unit {0}) × World). IsSound out.1)
                (sym (process_rule-some env num candle rule w a fired fine))
                (dispatch-IsSound env a w' here sound'))
      ]

  process_rules-IsSound :
      (candle : Candle num) (rules : List Rule) (w : World)
      → IsSound w
      → IsSound (process_rules env num candle rules w).1
  unfolding process_rules
  process_rules-IsSound candle [] w sound = sound
  process_rules-IsSound candle (r ∷ rest) w sound =
      let (fine, _) = process_rule-Kept env num candle r w sound.consistent in
      subst (λ (out : Result (Unit {0}) × World). IsSound out.1)
        (sym (then-runs (process_rule env num candle r) (process_rules env num candle rest) w fine))
        (process_rules-IsSound candle rest (process_rule env num candle r w).1
          (process_rule-IsSound candle r w sound))

  pub save-fresh :
      (candle : Candle num) (w : World) → w.fresh ≤ (save_candle env num candle w).1.fresh
  unfolding save_candle insert_candle
  save-fresh candle w = ground arith

  save-IsSound :
      (candle : Candle num) (w : World) → IsSound w → IsSound (save_candle env num candle w).1
  save-IsSound candle w sound =
      let ((_, kept), change) = save_candle_lem env num candle w sound.consistent in
      let w' = (save_candle env num candle w).1 in
      elim change [
        | inl (_, same) ↦
            Leaves-IsSound w w'
              (record {
                alerts = rw same refl;
                rules = rw same refl;
                attempts = rw same refl;
                fresh = save-fresh candle w;
              })
              kept sound
        | inr (_, added) ↦
            Leaves-IsSound w w'
              (record {
                alerts = rw added refl;
                rules = rw added refl;
                attempts = rw added refl;
                fresh = save-fresh candle w;
              })
              kept sound
      ]

  module _ (cfg : WorkerSettings) where
    cursor-Leaves :
        (symbol : String) (t : ℕ) (w : World) → Leaves w (update_cursor env cfg symbol t w).1
    unfolding update_cursor
    cursor-Leaves symbol t w = record {
      alerts = ground arith;
      rules = ground arith;
      attempts = ground arith;
      fresh = ground arith;
    }

    pub candle-IsSound :
        (rules : List Rule) (candle : Candle num) (w : World)
        → IsSound w
        → IsSound (process_candle env num cfg rules candle w).1
    unfolding process_candle
    candle-IsSound rules candle w sound =
        let saved = save-IsSound candle w sound in
        let (fine, _) = (save_candle_lem env num candle w sound.consistent).0 in
        let w1 = (save_candle env num candle w).1 in
        let (fine', kept) =
          update_cursor-Kept env cfg candle.symbol candle.timestamp w1 saved.consistent in
        let w2 = (update_cursor env cfg candle.symbol candle.timestamp w1).1 in
        let moved =
          Leaves-IsSound w1 w2 (cursor-Leaves candle.symbol candle.timestamp w1) kept saved in
        let mine = rules_of env num candle rules in
        subst (λ (out : Result (Unit {0}) × World). IsSound out.1)
          (sym (
            then-runs (save_candle env num candle)
              (update_cursor env cfg candle.symbol candle.timestamp
                >> process_rules env num candle mine)
              w fine
            ∙ then-runs (update_cursor env cfg candle.symbol candle.timestamp)
                (process_rules env num candle mine) w1 fine'))
          (process_rules-IsSound candle mine w2 moved)
