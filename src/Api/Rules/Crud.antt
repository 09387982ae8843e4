-- ===== src/Api/Rules/Crud.antt =====
-- What the routes promise of the table (api/routes/rules.py).
use hyperliquid_trading_aler.Prelude.{
  ℕ, ◌+◌, ◌≡◌, ◌≢◌, ◌⊎◌, inl, inr, refl, sym, subst, ◌∙◌, Bool, true, false, not, none, some,
  Result, ok, List, [], ◌∷◌, All, select, arith, Bool-cases, Option-cases, ◌==◌,
}
use hyperliquid_trading_aler.Db.{Env, Database, World}
use hyperliquid_trading_aler.Db.Rows.{Rule, Alert, AlertDeliveryAttempt}
use hyperliquid_trading_aler.Db.Table.{row, remove, IsKeyed}
use hyperliquid_trading_aler.Dispatch.Outcome.{alert_key}
use hyperliquid_trading_aler.Api.Rules.{
  RuleCreate, is_valid, Answer, rule, status, rule_key, delete_cascade, new_rule, create_rule,
  get_rule, delete_rule, is_complete, model_validate,
}

-- Every alert's rule and every attempt's alert is in its table: the two foreign keys.
pub record IsLinked (db : Database) : Type 0 where
  pub alerts : All (λ (a : Alert). row rule_key a.rule_id db.rules ≢ none) db.alerts
  pub attempts :
      All (λ (t : AlertDeliveryAttempt). row alert_key t.alert_id db.alerts ≢ none) db.attempts

row-remove_ne :
    (k j : ℕ) (t : List Rule) → k ≢ j → row rule_key j (remove rule_key k t) ≡ row rule_key j t
row-remove_ne k j [] h = refl
row-remove_ne k j (r ∷ t) h = ground (arith, row-remove_ne k j t h, h)

row-remove_self :
    (k : ℕ) (t : List Rule) → IsKeyed rule_key t → row rule_key k (remove rule_key k t) ≡ none
row-remove_self k [] keyed = refl
row-remove_self k (r ∷ t) (alone, keyed) = elim (Bool-cases (r.id == k)) [
  | inl here ↦ rw here (subst (λ j. row rule_key j t ≡ none) (ground arith) alone)
  | inr differs ↦ rw differs (rw differs (row-remove_self k t keyed))
]

pub kept-rules :
    (k : ℕ) (rules : List Rule) (alerts : List Alert)
    → All (λ (a : Alert). row rule_key a.rule_id rules ≢ none) alerts
    → All
        (λ (a : Alert). row rule_key a.rule_id (remove rule_key k rules) ≢ none)
        (select (λ (a : Alert). not (a.rule_id == k)) alerts)
kept-rules k rules [] h = tt
kept-rules k rules (a ∷ t) (here, later) = elim (Bool-cases (a.rule_id == k)) [
  | inl gone ↦ rw gone (kept-rules k rules t later)
  | inr stays ↦
      (let differs : k ≢ a.rule_id = λ e. ground arith in
        rw stays (
          (λ e. here (sym (row-remove_ne k a.rule_id rules differs) ∙ e)),
          kept-rules k rules t later,
        ))
]

row-select :
    (k : ℕ) (p : Alert → Bool) (t : List Alert) {a : Alert}
    → row alert_key k t ≡ some a
    → p a ≡ true
    → row alert_key k (select p t) ≢ none
row-select k p [] found holds = absurd (cc)
row-select k p (x ∷ t) {a} found holds = elim (Bool-cases (x.id == k)) [
  | inl here ↦
      (let same : x ≡ a = ground arith in
        let kept : p x ≡ true = subst (λ y. p y ≡ true) (sym same) holds in λ e. ground arith)
  | inr differs ↦
      (let later = row-select k p t {a = a} (ground arith) holds in
        elim (Bool-cases (p x)) [
          | inl kept ↦ λ e. later (ground arith)
          | inr gone ↦ λ e. later (ground arith)
        ])
]

pub kept-alerts :
    (k : ℕ) (alerts : List Alert) (attempts : List AlertDeliveryAttempt)
    → All (λ (t : AlertDeliveryAttempt). row alert_key t.alert_id alerts ≢ none) attempts
    → All
        (λ (t : AlertDeliveryAttempt).
          row alert_key t.alert_id (select (λ (a : Alert). not (a.rule_id == k)) alerts) ≢ none)
        (select
          (λ (t : AlertDeliveryAttempt). elim (row (λ (a : Alert). a.id) t.alert_id alerts) [
            | none ↦ true
            | some a ↦ not (a.rule_id == k)
          ])
          attempts)
kept-alerts k alerts [] h = tt
kept-alerts k alerts (t ∷ ts) (here, later) =
    elim (Option-cases (row alert_key t.alert_id alerts)) [
      | inl missing ↦ absurd (here missing)
      | inr (a, found) ↦ elim (Bool-cases (a.rule_id == k)) [
        | inl gone ↦ rw (found, gone) (kept-alerts k alerts ts later)
        | inr stays ↦
            rw (found, stays)
              (
                row-select t.alert_id (λ (a : Alert). not (a.rule_id == k)) alerts found
                    (ground arith),
                kept-alerts k alerts ts later,
              )
      ]
    ]

module _ (env : Env) where
  pub create_lem :
      (data_ : RuleCreate) (w : World)
      → let (result, w') = create_rule env data_ w in
        ((is_valid data_ ≡ true)
          × (let r = new_rule env w.fresh (env.clock w.ticks) (env.clock (w.ticks + 1)) data_ in
              (result ≡ ok (rule 201 r))
              × ((get_rule env r.id w').0 ≡ ok (rule 200 r))
              × (w'.db ≡ record w.db { rules = r ∷ w.db.rules })
              × (w'.committed ≡ w'.db)))
        ⊎ ((is_valid data_ ≡ false) × (result ≡ ok (status 422)) × (w' ≡ w))
  unfolding create_rule get_rule model_validate is_complete
  create_lem data_ w = elim (Bool-cases (is_valid data_)) [
    | inl valid ↦ rw valid (inl (refl, (refl, ground arith, refl, refl)))
    | inr invalid ↦ rw invalid (inr (refl, refl, refl))
  ]

  -- The row holds the request, its symbol in upper case, under a new identifier.
  pub record IsRuleOf (data_ : RuleCreate) (w : World) (r : Rule) : Type 0 where
    pub id : r.id ≡ w.fresh
    pub name : r.name ≡ data_.name
    pub rule_type : r.rule_type ≡ data_.rule_type
    pub symbol : r.symbol ≡ env.upper data_.symbol
    pub config : r.config ≡ some data_.config
    pub cooldown_seconds : r.cooldown_seconds ≡ some data_.cooldown_seconds
    pub discord_webhook_url : r.discord_webhook_url ≡ data_.discord_webhook_url
    pub generic_webhook_url : r.generic_webhook_url ≡ data_.generic_webhook_url
    pub is_active : r.is_active ≡ some data_.is_active
    pub created_at : r.created_at ≡ env.clock w.ticks

  -- A valid rule that is created is answered with 201, and is then found under its identifier with
  -- the fields of the request, its symbol in upper case; an invalid one is answered with 422 and
  -- changes nothing.
  pub get-create :
      (data_ : RuleCreate) (w : World)
      → let (result, w') = create_rule env data_ w in
        ((is_valid data_ ≡ true)
          × ((r : Rule) × IsRuleOf data_ w r
              × (result ≡ ok (rule 201 r))
              × ((get_rule env r.id w').0 ≡ ok (rule 200 r))
              × (w'.db ≡ record w.db { rules = r ∷ w.db.rules })
              × (w'.committed ≡ w'.db)))
        ⊎ ((is_valid data_ ≡ false) × (result ≡ ok (status 422)) × (w' ≡ w))
  get-create data_ w = elim (create_lem data_ w) [
    | inl (valid, (answered, got, stored, durable)) ↦ inl (
      valid,
      (
        new_rule env w.fresh (env.clock w.ticks) (env.clock (w.ticks + 1)) data_,
        record {
          id = refl;
          name = refl;
          rule_type = refl;
          symbol = refl;
          config = refl;
          cooldown_seconds = refl;
          discord_webhook_url = refl;
          generic_webhook_url = refl;
          is_active = refl;
          created_at = refl;
        },
        answered,
        got,
        stored,
        durable,
      ),
    )
    | inr refused ↦ inr refused
  ]

  pub delete-missing :
      (k : ℕ) (w : World)
      → row rule_key k w.db.rules ≡ none
      → delete_rule env k w ≡ (ok (status 404), w)
  unfolding delete_rule
  delete-missing k w missing = ground arith

  pub delete-found :
      (k : ℕ) (w : World) {r : Rule}
      → row rule_key k w.db.rules ≡ some r
      → delete_rule env k w ≡ (
        ok (status 204),
        record w { db = delete_cascade k w.db; committed = delete_cascade k w.db },
      )
  unfolding delete_rule
  delete-found k w found = ground arith

  abbrev Deleted : ℕ → World → Result Answer × World → Type 0
  Deleted k w (result, w') =
      IsLinked w'.db
      × (row rule_key k w'.db.rules ≡ none)
      × (((row rule_key k w.db.rules ≢ none) × (result ≡ ok (status 204)) × (w'.committed ≡ w'.db))
          ⊎ ((row rule_key k w.db.rules ≡ none) × (result ≡ ok (status 404)) × (w' ≡ w)))

  -- When no two rules share an identifier, deleting a rule that exists is answered with 204,
  -- removes it, and leaves no alert without its rule and no attempt without its alert, when none
  -- were before; deleting any other is answered with 404 and changes nothing.
  pub delete-IsLinked :
      (k : ℕ) (w : World)
      → IsKeyed rule_key w.db.rules
      → IsLinked w.db
      → let (result, w') = delete_rule env k w in
        IsLinked w'.db
        × (row rule_key k w'.db.rules ≡ none)
        × (((row rule_key k w.db.rules ≢ none)
              × (result ≡ ok (status 204))
              × (w'.committed ≡ w'.db))
            ⊎ ((row rule_key k w.db.rules ≡ none) × (result ≡ ok (status 404)) × (w' ≡ w)))
  unfolding delete_cascade
  delete-IsLinked k w keyed linked = elim (Option-cases (row rule_key k w.db.rules)) [
    | inl missing ↦
        subst (Deleted k w) (sym (delete-missing k w missing))
          (linked, missing, inr (missing, refl, refl))
    | inr (r, found) ↦ subst (Deleted k w) (sym (delete-found k w found)) (
      record {
        alerts = kept-rules k w.db.rules w.db.alerts linked.alerts;
        attempts = kept-alerts k w.db.alerts w.db.attempts linked.attempts;
      },
      row-remove_self k w.db.rules keyed,
      inl ((λ e. cc), refl, refl),
    )
  ]
