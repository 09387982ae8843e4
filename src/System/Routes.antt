-- ===== src/System/Routes.antt =====
-- The routes that change rules (api/routes/rules.py) keep the invariant of the system.
use hyperliquid_trading_aler.System.Audited.Deleted.{delete-IsOwned, delete-IsAudited}
use hyperliquid_trading_aler.Db.Session.{get_db_session}
use hyperliquid_trading_aler.Prelude.{
  ℕ, ◌+◌, ◌≡◌, ◌≢◌, refl, sym, subst, inl, inr, Bool, true, not, Bool-cases, Option-cases, none,
  List, [], ◌∷◌, arith, Result, ◌==◌, find, select, ok, err,
}
use hyperliquid_trading_aler.Db.{Env, World, M}
use hyperliquid_trading_aler.Db.Rows.{Rule, Alert, Dict, Value}
use hyperliquid_trading_aler.Db.Table.{row, update}
use hyperliquid_trading_aler.Db.Table.Numbered.{
  IsNumbered-cons, IsNumbered-weaken, update-IsNumbered, select-IsNumbered, remove-IsNumbered,
}
use hyperliquid_trading_aler.Dispatch.Outcome.{alert_key, rule_key}
use hyperliquid_trading_aler.Evaluate.Engine.{same_window}
use hyperliquid_trading_aler.Evaluate.Engine.Windows.{IsUnique}
use hyperliquid_trading_aler.Api.Rules.{
  RuleCreate, RuleUpdate, Answer, delete_cascade, create_rule, update_rule, updated, delete_rule,
  is_valid, new_rule, is_valid_update, has_null_name, is_changed, model_validate, is_complete,
}
use hyperliquid_trading_aler.Api.Rules.Crud.{create_lem, delete-missing, delete-found, kept-rules}
use hyperliquid_trading_aler.Api.Rules.Update.{
  update-refused, update-missing, update-same, update-null_name, update-changed,
}
use hyperliquid_trading_aler.System.Sound.{IsSound, HaveRules, durable-IsSound}

cons-HaveRules :
    (r : Rule) (rules : List Rule) (t : List Alert) → HaveRules rules t → HaveRules (r ∷ rules) t
cons-HaveRules r rules [] h = tt
cons-HaveRules r rules (a ∷ t) h = ((λ e. h.0 (ground arith)), cons-HaveRules r rules t h.1)

ended-IsSound :
    {A : Type 0} (out : Result A × World) (w : World)
    → IsSound out.1
    → IsSound (get_db_session (λ _. out) w).1
unfolding get_db_session
ended-IsSound (ok a, u) w sound = (durable-IsSound u sound).0
ended-IsSound (err e, u) w sound = (durable-IsSound u sound).1

-- The end of a request keeps the invariant that its route kept.
pub session-IsSound :
    {A : Type 0} (route : M A) (w : World)
    → IsSound (route w).1
    → IsSound (get_db_session route w).1
unfolding get_db_session
session-IsSound route w = ended-IsSound (route w) w

update-row_some :
    (k : ℕ) (b : Rule) (t : List Rule)
    → row rule_key k t ≢ none
    → row rule_key k (update rule_key b t) ≢ none
update-row_some k b [] h = h
update-row_some k b (x ∷ t) h = elim (Bool-cases (x.id == k)) [
  | inl here ↦ λ e. ground arith
  | inr differs ↦
      (let later = update-row_some k b t (λ e. h (rw differs e)) in
        elim (Bool-cases (x.id == b.id)) [
          | inl same ↦ λ e. h (ground arith)
          | inr other ↦ λ e. later (rw (other, differs) at e)
        ])
]

update-HaveRules :
    (b : Rule) (rules : List Rule) (t : List Alert)
    → HaveRules rules t
    → HaveRules (update rule_key b rules) t
update-HaveRules b rules [] h = tt
update-HaveRules b rules (a ∷ t) h =
    (update-row_some a.rule_id b rules h.0, update-HaveRules b rules t h.1)

find-select :
    (a : Alert) (p : Alert → Bool) (t : List Alert)
    → find (same_window a) t ≡ none
    → find (same_window a) (select p t) ≡ none
find-select a p [] h = refl
find-select a p (x ∷ t) h = ground (arith, find-select a p t)

select-IsUnique : (p : Alert → Bool) (t : List Alert) → IsUnique t → IsUnique (select p t)
select-IsUnique p [] h = tt
select-IsUnique p (x ∷ t) h = elim (Bool-cases (p x)) [
  | inl in_ ↦ rw in_ ((find-select x p t h.0.0, h.0.1), select-IsUnique p t h.1)
  | inr out ↦ rw out (select-IsUnique p t h.1)
]

ticked-IsSound : (w : World) → IsSound w → IsSound (record w { ticks = w.ticks + 1 })
ticked-IsSound w sound = record {
  consistent = record {
    durable = sound.consistent.durable;
    alerts = sound.consistent.alerts;
    candles = sound.consistent.candles;
  };
  alerts = sound.alerts;
  rules = sound.rules;
  linked = sound.linked;
  owned = sound.owned;
  audited = sound.audited;
}

changed-IsSound :
    (b : Rule) (w : World)
    → IsSound w
    → let db' = record w.db { rules = update rule_key b w.db.rules } in
      IsSound (record w { db = db'; committed = db'; ticks = w.ticks + 1 })
changed-IsSound b w sound = record {
  consistent = record {
    durable = refl;
    alerts = sound.consistent.alerts;
    candles = sound.consistent.candles;
  };
  alerts = sound.alerts;
  rules = update-IsNumbered rule_key w.fresh b w.db.rules sound.rules;
  linked = update-HaveRules b w.db.rules w.db.alerts sound.linked;
  owned = sound.owned;
  audited = sound.audited;
}

module _ (env : Env) where
  create-fresh :
      (data_ : RuleCreate) (w : World)
      → is_valid data_ ≡ true
      → (create_rule env data_ w).1.fresh ≡ w.fresh + 1
  unfolding create_rule model_validate is_complete
  create-fresh data_ w valid = ground arith

  pub create-IsSound :
      (data_ : RuleCreate) (w : World) → IsSound w → IsSound (create_rule env data_ w).1
  create-IsSound data_ w sound = elim (create_lem env data_ w) [
    | inl (valid, (_, _, added, durable)) ↦
        (let w' = (create_rule env data_ w).1 in
          let r = new_rule env w.fresh (env.clock w.ticks) (env.clock (w.ticks + 1)) data_ in
          let drawn = create-fresh data_ w valid in
          record {
            consistent = record {
              durable = durable;
              alerts = rw added sound.consistent.alerts;
              candles = rw added sound.consistent.candles;
            };
            alerts = rw added (
                IsNumbered-weaken alert_key w.fresh w'.fresh w.db.alerts (omega arith)
                  sound.alerts);
            rules = rw added (
                IsNumbered-cons rule_key w.fresh w'.fresh r w.db.rules refl (omega arith)
                  sound.rules);
            linked = rw added (cons-HaveRules r w.db.rules w.db.alerts sound.linked);
            owned = rw added sound.owned;
            audited = rw added sound.audited;
          })
    | inr (_, _, same) ↦ subst IsSound (sym same) sound
  ]

  pub update-IsSound :
      (same_config : Dict Value → Dict Value → Bool) (k : ℕ) (data_ : RuleUpdate) (w : World)
      → IsSound w
      → IsSound (update_rule env same_config k data_ w).1
  update-IsSound same_config k data_ w sound = elim (Bool-cases (is_valid_update data_)) [
    | inr invalid ↦ rw (update-refused env same_config k data_ w invalid) sound
    | inl valid ↦ elim (Option-cases (row rule_key k w.db.rules)) [
      | inl missing ↦ rw (update-missing env same_config k data_ w valid missing) sound
      | inr (r, found) ↦ elim (Bool-cases (is_changed same_config data_ r)) [
        | inr same ↦
            rw (update-same env same_config k data_ w valid found same) (durable-IsSound w sound).0
        | inl changed ↦ elim (Bool-cases (has_null_name data_)) [
          | inl null ↦
              rw (update-null_name env same_config k data_ w valid found changed null)
                (ticked-IsSound w sound)
          | inr named ↦
              rw (update-changed env same_config k data_ w valid found changed named)
                (changed-IsSound (updated data_ (env.clock w.ticks) r) w sound)
        ]
      ]
    ]
  ]

  pub delete-IsSound : (k : ℕ) (w : World) → IsSound w → IsSound (delete_rule env k w).1
  unfolding delete_cascade
  delete-IsSound k w sound = elim (Option-cases (row rule_key k w.db.rules)) [
    | inl missing ↦
        subst (λ (out : Result Answer × World). IsSound out.1)
          (sym (delete-missing env k w missing)) sound
    | inr (r, found) ↦
        (let keep = λ (a : Alert). not (a.rule_id == k) in
          subst (λ (out : Result Answer × World). IsSound out.1) (sym (delete-found env k w found))
            (record {
              consistent = record {
                durable = refl;
                alerts = select-IsUnique keep w.db.alerts sound.consistent.alerts;
                candles = sound.consistent.candles;
              };
              alerts = select-IsNumbered alert_key w.fresh keep w.db.alerts sound.alerts;
              rules = remove-IsNumbered rule_key w.fresh k w.db.rules sound.rules;
              linked = kept-rules k w.db.rules w.db.alerts sound.linked;
              owned = delete-IsOwned k w.db sound.owned;
              audited = delete-IsAudited k w.db sound.alerts.keyed sound.audited;
            }))
  ]
