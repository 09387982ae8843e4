-- ===== src/Evaluate/Engine/Outcome.antt =====
-- What one call of `RuleEvaluator.evaluate` does (worker/evaluate/engine.py).
use hyperliquid_trading_aler.Prelude.{
  ℕ, ◌≡◌, ◌≢◌, refl, ◌⊎◌, inl, inr, Bool, true, false, Option, none, some, Result, ok, err, ◌∷◌,
  arith, find, Bool-cases, Option-cases, subst, sym, ◌∙◌, List-cases, type_error, ap, List, [],
}
use hyperliquid_trading_aler.Numerics.{Numerics}
use hyperliquid_trading_aler.Db.{Env, World, Database}
use hyperliquid_trading_aler.Db.Rows.{Rule, Alert, pending}
use hyperliquid_trading_aler.Db.Table.{row}
use hyperliquid_trading_aler.Ingest.Market.{Candle}
use hyperliquid_trading_aler.Evaluate.Engine.{
  get_idempotency_window, same_window, insert_alert, is_in_cooldown, new_alert, create_alert,
  settle, evaluate, outcome_of, last_alerts,
}
use hyperliquid_trading_aler.Evaluate.Engine.Windows.{IsUnique, find-ext, window_minute, IsWindowed}

abbrev rule_key : Rule → ℕ
rule_key r = r.id

abbrev pub stores : World → Database × Database
stores w = (w.db, w.committed)

module _ (env : Env) (num : Numerics) (rule : Rule) (candle : Candle num) where
  -- `a` is a new alert of the rule for the candle.
  pub record IsAlertFor (a : Alert) : Type 0 where
    pub rule_id : a.rule_id ≡ rule.id
    pub symbol : a.symbol ≡ candle.symbol
    pub rule_type : a.rule_type ≡ rule.rule_type
    pub triggered_at : a.triggered_at ≡ candle.timestamp
    pub window :
        (a.window_start ≡ (get_idempotency_window candle.timestamp).0)
        × (a.window_end ≡ (get_idempotency_window candle.timestamp).1)
    pub undelivered :
        (a.delivery_status ≡ pending) × (a.delivery_attempts ≡ 0) × (a.last_delivery_attempt ≡ none)

  pub alert-IsWindowed : (a : Alert) → IsAlertFor a → IsWindowed a
  alert-IsWindowed a h =
      let (low, high, size, whole, _) = window_minute candle.timestamp 0 in
      rw (h.window.0, h.window.1, h.triggered_at) (low, high, size, whole)

  -- Nothing was created: the database is as before, what is committed too.
  abbrev pub Quiet : Database × Database → Result (Option Alert) × World → Type 0
  Quiet (db, durable) (r, w') = (r ≡ ok none) × (w'.db ≡ db) × (w'.committed ≡ durable)

  -- One alert was created, committed, and is the only one of its rule and window.
  abbrev pub Fired : Database × Database → Result (Option Alert) × World → Type 0
  Fired (db, _) (r, w') =
      (a : Alert) × (r ≡ ok (some a))
      × IsAlertFor a
      × (w'.db ≡ record db { alerts = a ∷ db.alerts })
      × (find (same_window a) db.alerts ≡ none)
      × (row rule_key rule.id db.rules ≢ none)
      × (w'.committed ≡ w'.db)

  abbrev made : num.F → World → Alert
  made value w =
      new_alert env num w.fresh (env.clock w.ticks) rule candle
        (get_idempotency_window candle.timestamp) value

  create_alert-Quiet :
      (value : num.F) (w : World)
      → (row rule_key rule.id w.db.rules ≡ none)
        ⊎ (find (same_window (made value w)) w.db.alerts ≢ none)
      → Quiet
          (stores w)
          (create_alert env num rule candle (get_idempotency_window candle.timestamp) value w)
  unfolding create_alert insert_alert
  create_alert-Quiet value w h = ground arith

  create_alert-Fired :
      (value : num.F) (w : World)
      → row rule_key rule.id w.db.rules ≢ none
      → find (same_window (made value w)) w.db.alerts ≡ none
      → Fired
          (stores w)
          (create_alert env num rule candle (get_idempotency_window candle.timestamp) value w)
  unfolding create_alert insert_alert
  create_alert-Fired value w known free = (
    made value w,
    ground arith,
    record {
      rule_id = refl;
      symbol = refl;
      rule_type = refl;
      triggered_at = refl;
      window = (refl, refl);
      undelivered = (refl, refl, refl);
    },
    ground arith,
    free,
    known,
    ground arith,
  )

  settle-outcome :
      (outcome : Option (Result (Option num.F))) (w : World)
      → let out = settle env num rule candle outcome w in
        Quiet (stores w) out ⊎ Fired (stores w) out
  unfolding settle
  settle-outcome none w = inl (refl, refl, refl)
  settle-outcome (some (err e)) w = inl (refl, refl, refl)
  settle-outcome (some (ok none)) w = inl (refl, refl, refl)
  settle-outcome (some (ok (some value))) w =
      elim (Option-cases (row rule_key rule.id w.db.rules)) [
        | inl gone ↦ inl (create_alert-Quiet value w (inl gone))
        | inr (r, known) ↦ elim (Option-cases (find (same_window (made value w)) w.db.alerts)) [
          | inl free ↦ inr (create_alert-Fired value w (λ e. cc) free)
          | inr (b, taken) ↦ inl (create_alert-Quiet value w (inr (λ e. cc)))
        ]
      ]

  -- Whether the cooldown of the rule suppresses the candle.
  abbrev pub cools : World → Bool
  cools w = elim (is_in_cooldown env rule candle.symbol w).0 [ ok b ↦ b | _ ↦ false ]

  abbrev earlier_alerts : Database → List Alert
  earlier_alerts db = last_alerts db rule.id (env.upper candle.symbol)

  -- The cooldown is null and is compared with an earlier alert, which raises TypeError.
  abbrev pub Broken : Database × Database → Result (Option Alert) × World → Type 0
  Broken (db, durable) (r, w') =
      (r ≡ err type_error)
      × (rule.cooldown_seconds ≡ none)
      × (earlier_alerts db ≢ [])
      × (w'.db ≡ db)
      × (w'.committed ≡ durable)

  pub cooldown-stores : (w : World) → stores (is_in_cooldown env rule candle.symbol w).1 ≡ stores w
  unfolding is_in_cooldown
  cooldown-stores w = ground arith

  pub cooldown-answers :
      (w : World)
      → (rule.cooldown_seconds ≢ none) ⊎ (earlier_alerts w.db ≡ [])
      → (is_in_cooldown env rule candle.symbol w).0 ≡ ok (cools w)
  unfolding is_in_cooldown
  cooldown-answers w h = ground arith

  cooldown-breaks :
      (w : World)
      → rule.cooldown_seconds ≡ none
      → earlier_alerts w.db ≢ []
      → (is_in_cooldown env rule candle.symbol w).0 ≡ err type_error
  unfolding is_in_cooldown
  cooldown-breaks w null earlier = ground arith

  pub evaluate-breaks :
      (w : World)
      → rule.cooldown_seconds ≡ none
      → earlier_alerts w.db ≢ []
      → evaluate env num rule candle w
        ≡ (err type_error, (is_in_cooldown env rule candle.symbol w).1)
  unfolding evaluate
  evaluate-breaks w null earlier = ground (arith, cooldown-breaks w null earlier)

  abbrev pub considered : World → Result (Option Alert) × World
  considered w =
      let w' = (is_in_cooldown env rule candle.symbol w).1 in
      settle env num rule candle (outcome_of env num rule candle w'.db) w'

  pub evaluate-cools :
      (w : World)
      → (is_in_cooldown env rule candle.symbol w).0 ≡ ok (cools w)
      → cools w ≡ true
      → evaluate env num rule candle w ≡ (ok none, (is_in_cooldown env rule candle.symbol w).1)
  unfolding evaluate
  evaluate-cools w answers h = ground arith

  pub evaluate-considers :
      (w : World)
      → (is_in_cooldown env rule candle.symbol w).0 ≡ ok (cools w)
      → cools w ≡ false
      → evaluate env num rule candle w ≡ considered w
  unfolding evaluate
  evaluate-considers w answers h = ground arith

  -- Before the rule is looked at: the test of the cooldown raises, or it answers.
  pub cooldown-cases :
      (w : World)
      → ((rule.cooldown_seconds ≡ none) × (earlier_alerts w.db ≢ []))
        ⊎ ((is_in_cooldown env rule candle.symbol w).0 ≡ ok (cools w))
  cooldown-cases w = elim (Option-cases rule.cooldown_seconds) [
    | inr (seconds, set) ↦ inr (cooldown-answers w (inl (λ e. cc)))
    | inl null ↦ elim (List-cases (earlier_alerts w.db)) [
      | inl none_ ↦ inr (cooldown-answers w (inr none_))
      | inr (a, rest, some_) ↦ inl (null, λ e. cc)
    ]
  ]

  -- `evaluate` does one of three things. It returns None and leaves the database as it was. Or it
  -- returns a new alert: of this rule, triggered at the candle's time, in the candle's idempotency
  -- window, pending with no attempts; that alert's row is added and committed, no other alert of
  -- the rule had this window, and the rule is in the database. Or it raises TypeError and leaves the
  -- database as it was, which happens only if the rule's cooldown is null and an alert of the rule
  -- on the candle's symbol is stored.
  pub evaluate_outcome :
      (w : World)
      → let out = evaluate env num rule candle w in
        Quiet (stores w) out ⊎ (Fired (stores w) out ⊎ Broken (stores w) out)
  evaluate_outcome w =
      let w' = (is_in_cooldown env rule candle.symbol w).1 in
      let kept = cooldown-stores w in
      elim (cooldown-cases w) [
        | inl (null, earlier) ↦ rw (evaluate-breaks w null earlier) (
            inr (
              inr (
                refl,
                null,
                earlier,
                ap (λ (p : Database × Database). p.0) kept,
                ap (λ (p : Database × Database). p.1) kept,
              )))
        | inr answers ↦ elim (Bool-cases (cools w)) [
          | inl cooling ↦ rw (evaluate-cools w answers cooling) (
              inl (
                refl,
                ap (λ (p : Database × Database). p.0) kept,
                ap (λ (p : Database × Database). p.1) kept,
              ))
          | inr free ↦
              rw (evaluate-considers w answers free)
                (elim (subst
                  (λ (dbs : Database × Database).
                    Quiet dbs (considered w) ⊎ Fired dbs (considered w))
                  kept (settle-outcome (outcome_of env num rule candle w'.db) w')) [
                    | inl quiet ↦ inl quiet
                    | inr fired ↦ inr (inl fired)
                  ])
        ]
      ]

  -- Once an alert of the rule has the candle's window, `evaluate` leaves the database as it was,
  -- whatever the rule says of the candle, and returns None unless the rule's cooldown is null.
  pub evaluate_again :
      (w : World) (earlier : Alert)
      → earlier.rule_id ≡ rule.id
      → earlier.window_start ≡ (get_idempotency_window candle.timestamp).0
      → earlier.window_end ≡ (get_idempotency_window candle.timestamp).1
      → find (same_window earlier) w.db.alerts ≢ none
      → let (result, w') = evaluate env num rule candle w in
        ((result ≡ ok none) ⊎ ((result ≡ err type_error) × (rule.cooldown_seconds ≡ none)))
        × (w'.db ≡ w.db)
        × (w'.committed ≡ w.committed)
  evaluate_again w earlier same_rule same_start same_end taken = elim (evaluate_outcome w) [
    | inl (quiet, same, durable) ↦ (inl quiet, same, durable)
    | inr (inr (raised, null, _, same, durable)) ↦ (inr (raised, null), same, durable)
    | inr (inl (a, _, for_a, _, free, _, _)) ↦ absurd (
        taken (
          find-ext a earlier w.db.alerts (for_a.rule_id ∙ sym same_rule)
            (for_a.window.0 ∙ sym same_start) (for_a.window.1 ∙ sym same_end) free))
  ]

  -- `evaluate` keeps the alerts unique by rule and window.
  pub evaluate-IsUnique :
      (w : World) → IsUnique w.db.alerts → IsUnique (evaluate env num rule candle w).1.db.alerts
  evaluate-IsUnique w unique = elim (evaluate_outcome w) [
    | inl (_, same, _) ↦ subst (λ (db : Database). IsUnique db.alerts) (sym same) unique
    | inr (inr (_, _, _, same, _)) ↦ subst (λ (db : Database). IsUnique db.alerts) (sym same) unique
    | inr (inl (a, _, for_a, added, free, _, _)) ↦
        subst (λ (db : Database). IsUnique db.alerts) (sym added)
          ((free, alert-IsWindowed a for_a), unique)
  ]
