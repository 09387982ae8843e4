-- ===== src/System/Resume.antt =====
-- A worker that is started again: the cursors that the run before left (worker/main.py) are what its
-- client has seen (worker/ingest/hyperliquid.py).
pub mod Runs
use hyperliquid_trading_aler.Ingest.Stream.Seeds.{last_seen-see_if, or_else}
use hyperliquid_trading_aler.Ingest.Stream.Fresh.{seen_after}
use hyperliquid_trading_aler.Db.Table.Numbered.{IsNumbered-weaken}
use hyperliquid_trading_aler.Worker.Candles.{save_candle_lem, update_cursor-Kept, cursor_key}
use hyperliquid_trading_aler.Worker.Loop.{then-runs, process_rules-Kept}
use hyperliquid_trading_aler.Prelude.{
  ℕ, ◌+◌, ◌≤◌, ◌≡◌, refl, sym, subst, ap, ◌∙◌, String, Bool, true, false, Option, none, some,
  Result, ok, List, [], ◌∷◌, ◌++◌, arith, str_eq, str_eq_refl, Bool-cases, Option-cases, inl, inr,
  if◌then◌else◌, All, select, map, eq_iff, type_error,
}
use hyperliquid_trading_aler.Config.{WorkerSettings}
use hyperliquid_trading_aler.Numerics.{Numerics}
use hyperliquid_trading_aler.Db.{Env, World, Database, ◌>>◌}
use hyperliquid_trading_aler.Db.Rows.{Rule, Alert, WorkerCursor}
use hyperliquid_trading_aler.Db.Table.{row}
use hyperliquid_trading_aler.Dispatch.{dispatch, dispatch_by}
use hyperliquid_trading_aler.Dispatch.Outcome.{
  alert_key, rule_key, dispatch-found, dispatch-missing,
}
use hyperliquid_trading_aler.Ingest.Market.{Candle}
use hyperliquid_trading_aler.Ingest.Cursor.{update_cursor, get_all_cursors}
use hyperliquid_trading_aler.Ingest.Stream.{LastSeen, last_seen, see, seed_last_seen}
use hyperliquid_trading_aler.Evaluate.Engine.{evaluate}
use hyperliquid_trading_aler.Evaluate.Engine.Outcome.{evaluate_outcome, alert-IsWindowed}
use hyperliquid_trading_aler.Worker.{
  process_rule, process_rules, save_candle, insert_candle, process_candle, process_stream, rules_of,
}
use hyperliquid_trading_aler.Worker.Invariant.{
  process_rule-none, process_rule-some, process_rule-err, dispatch-Kept, IsConsistent,
  process_rule-Kept,
}
use hyperliquid_trading_aler.Worker.Cursors.{
  remembered, IsPlaced, memory, update_cursor-IsPlaced, update_cursor-memory,
}
use hyperliquid_trading_aler.System.Writes.{dispatch_by-Writes}
use hyperliquid_trading_aler.System.Candles.{evaluate-Numbers, save-fresh}

pub seed-remembered :
    (upper : String → String) (worker s : String) (t : List WorkerCursor) (seen : LastSeen)
    → last_seen s (
        seed_last_seen upper
          (map
            (λ (c : WorkerCursor). (c.symbol, c.last_processed_timestamp))
            (select (λ (c : WorkerCursor). str_eq c.worker_id worker) t))
          seen)
      ≡ or_else (remembered upper worker s t) (last_seen s seen)
unfolding seed_last_seen
seed-remembered upper worker s [] seen = refl
seed-remembered upper worker s (x ∷ t) seen = elim (Bool-cases (str_eq x.worker_id worker)) [
  | inl mine ↦ rw mine (
      seed-remembered upper worker s t (see (upper x.symbol) x.last_processed_timestamp seen)
      ∙ ap (or_else (remembered upper worker s t))
          (last_seen-see_if s (upper x.symbol) x.last_processed_timestamp seen)
      ∙ ground arith)
  | inr other ↦ rw other (seed-remembered upper worker s t seen ∙ ground arith)
]

-- A step that leaves the cursors alone.
abbrev Still : World → World → Type 0
Still w w' = (w'.db.cursors ≡ w.db.cursors) × (w.fresh ≤ w'.fresh)

module _ (env : Env) (num : Numerics) where
  dispatch_by-cursors :
      (a : Alert) (r : Rule) (w : World) → (dispatch_by env a r w).1.db.cursors ≡ w.db.cursors
  unfolding dispatch_by
  dispatch_by-cursors a r w = ground arith

  dispatch-Still : (a : Alert) (w : World) → Still w (dispatch env a w).1
  dispatch-Still a w = elim (Option-cases (row rule_key a.rule_id w.db.rules)) [
    | inl gone ↦ rw (dispatch-missing env a w gone) (refl, omega arith)
    | inr (r, found) ↦
        rw (dispatch-found env a w found)
          (dispatch_by-cursors a r w, (dispatch_by-Writes env a r w).fresh)
  ]

  process_rule-Still :
      (candle : Candle num) (rule : Rule) (w : World)
      → IsConsistent w
      → Still w (process_rule env num candle rule w).1
  process_rule-Still candle rule w kept =
      let w' = (evaluate env num rule candle w).1 in
      let (grows, _) = evaluate-Numbers env num rule candle w in
      elim (evaluate_outcome env num rule candle w) [
        | inl (quiet, same, _) ↦
            rw (process_rule-none env num candle rule w quiet)
              (ap (λ (db : Database). db.cursors) same, grows)
        | inr (inr (raised, _, _, _, durable)) ↦
            rw (process_rule-err env num candle rule w type_error raised)
              (ap (λ (db : Database). db.cursors) (durable ∙ kept.durable), grows)
        | inr (inl (a, fired, for_a, added, free, _, durable)) ↦
            (let kept' : IsConsistent w' = record {
              durable = durable;
              alerts = rw added ((free, alert-IsWindowed env num rule candle a for_a), kept.alerts);
              candles = rw added kept.candles;
            } in
              let here : row alert_key a.id w'.db.alerts ≡ some a =
                subst (λ (db : Database). row alert_key a.id db.alerts ≡ some a) (sym added)
                  (ground arith) in
              let (fine, _) = dispatch-Kept env a w' here kept' in
              let (same, grows') = dispatch-Still a w' in
              rw (process_rule-some env num candle rule w a fired fine)
                (same ∙ ap (λ (db : Database). db.cursors) added, omega arith))
      ]

  process_rules-Still :
      (candle : Candle num) (rules : List Rule) (w : World)
      → IsConsistent w
      → Still w (process_rules env num candle rules w).1
  unfolding process_rules
  process_rules-Still candle [] w kept = (refl, omega arith)
  process_rules-Still candle (r ∷ rest) w kept =
      let (fine, kept') = process_rule-Kept env num candle r w kept in
      let v = (process_rule env num candle r w).1 in
      let (same, grows) = process_rule-Still candle r w kept in
      let (same', grows') = process_rules-Still candle rest v kept' in
      rw (then-runs (process_rule env num candle r) (process_rules env num candle rest) w fine)
        (same' ∙ same, omega arith)

  save-Still :
      (candle : Candle num) (w : World) → IsConsistent w → Still w (save_candle env num candle w).1
  save-Still candle w kept = elim (save_candle_lem env num candle w kept).1 [
    | inl (_, same) ↦ (ap (λ (db : Database). db.cursors) same, save-fresh env num candle w)
    | inr (_, added) ↦ (ap (λ (db : Database). db.cursors) added, save-fresh env num candle w)
  ]

module _ (env : Env) (num : Numerics) (cfg : WorkerSettings)
    (idem : (s : String) → env.upper (env.upper s) ≡ env.upper s) where
  Still-IsPlaced : (w w' : World) → Still w w' → IsPlaced env cfg w → IsPlaced env cfg w'
  Still-IsPlaced w w' (same, grows) placed = record {
    numbered =
        rw same (IsNumbered-weaken cursor_key w.fresh w'.fresh w.db.cursors grows placed.numbered);
    single = rw same placed.single;
    uppers = rw same placed.uppers;
  }

  -- What a candle does to the cursors.
  abbrev Advances : Candle num → World → World → Type 0
  Advances c w w' =
      IsConsistent w'
      × IsPlaced env cfg w'
      × ((s : String)
          → memory env cfg idem s w'
            ≡ (if str_eq c.symbol s then some c.timestamp else memory env cfg idem s w))

  process_candle-Advances :
      (rules : List Rule) (c : Candle num) (w : World)
      → env.upper c.symbol ≡ c.symbol
      → IsConsistent w
      → IsPlaced env cfg w
      → ((process_candle env num cfg rules c w).0 ≡ ok tt)
        × Advances c w (process_candle env num cfg rules c w).1
  unfolding process_candle
  process_candle-Advances rules c w named kept placed =
      let (fine, kept1) = (save_candle_lem env num c w kept).0 in
      let w1 = (save_candle env num c w).1 in
      let still1 = save-Still env num c w kept in
      let placed1 = Still-IsPlaced w w1 still1 placed in
      let (fine', kept2) = update_cursor-Kept env cfg c.symbol c.timestamp w1 kept1 in
      let w2 = (update_cursor env cfg c.symbol c.timestamp w1).1 in
      let placed2 = update_cursor-IsPlaced env cfg idem c.symbol c.timestamp w1 placed1 in
      let mine = rules_of env num c rules in
      let w3 = (process_rules env num c mine w2).1 in
      let still3 = process_rules-Still env num c mine w2 kept2 in
      let (fine3, kept3) = process_rules-Kept env num c mine w2 kept2 in
      let runs =
        then-runs (save_candle env num c)
          (update_cursor env cfg c.symbol c.timestamp >> process_rules env num c mine) w fine
        ∙ then-runs (update_cursor env cfg c.symbol c.timestamp) (process_rules env num c mine) w1
            fine' in
      rw runs (
        fine3,
        (
          kept3,
          Still-IsPlaced w2 w3 still3 placed2,
          (λ s.
              ap (remembered env.upper cfg.worker_id s) still3.0
              ∙ update_cursor-memory env cfg idem s c.symbol c.timestamp w1 placed1
              ∙ ap (λ k. if str_eq k s then some c.timestamp else memory env cfg idem s w1) named
              ∙ ap
                  (λ t.
                    if str_eq c.symbol s
                    then some c.timestamp
                    else remembered env.upper cfg.worker_id s t)
                  still1.0),
        ),
      )

  -- After the candles the cursors remember what a client has seen that began with the cursors before.
  pub process_stream-memory :
      (rules : List Rule) (cs : List (Candle num)) (seen : LastSeen) (w : World)
      → All (λ (c : Candle num). env.upper c.symbol ≡ c.symbol) cs
      → IsConsistent w
      → IsPlaced env cfg w
      → ((s : String) → memory env cfg idem s w ≡ last_seen s seen)
      → let w' = (process_stream env num cfg rules cs w).1 in
        IsConsistent w'
        × IsPlaced env cfg w'
        × ((s : String) → memory env cfg idem s w' ≡ last_seen s (seen_after num env.upper cs seen))
  unfolding process_stream
  process_stream-memory rules [] seen w named kept placed agree = (kept, placed, agree)
  process_stream-memory rules (c ∷ cs) seen w named kept placed agree =
      let (fine, (kept', placed', advances)) =
        process_candle-Advances rules c w named.0 kept placed in
      let w' = (process_candle env num cfg rules c w).1 in
      let later =
        process_stream-memory rules cs (see c.symbol c.timestamp seen) w' named.1 kept' placed'
          (λ s.
            advances s
            ∙ ap (λ o. if str_eq c.symbol s then some c.timestamp else o) (agree s)
            ∙ sym (last_seen-see_if s c.symbol c.timestamp seen)) in
      rw
        (then-runs (process_candle env num cfg rules c) (process_stream env num cfg rules cs) w
          fine)
        later
