-- ===== src/Api/Rules/Update.antt =====
-- What an update does to a rule (api/routes/rules.py), nulls included.
use hyperliquid_trading_aler.Api.Rules.Changes.{
  IsUpdated, IsSame, updated-IsUpdated, is_changed-IsSame, IsSame-is_changed,
}
use hyperliquid_trading_aler.Prelude.{
  ℕ, ◌+◌, ◌≡◌, ◌≢◌, refl, Bool, true, false, not, ◌||◌, none, some, Result, ok, err, value_error,
  integrity_error, arith, Bool-cases, inl, inr, if◌then◌else◌, subst, sym, ap, ◌∙◌, ◌⊎◌,
}
use hyperliquid_trading_aler.Db.{Env, World}
use hyperliquid_trading_aler.Db.Rows.{Rule, Dict, Value}
use hyperliquid_trading_aler.Db.Table.{row, update, row-key, row-update_self, row-update_ne}
use hyperliquid_trading_aler.Api.Rules.{
  RuleUpdate, Answer, rule, status, rule_key, is_complete, model_validate, is_valid_update,
  has_null_name, is_changed, updated, update_rule, get_rule,
}

-- How a stored rule is answered.
abbrev pub shown : Rule → Result Answer
shown r = if is_complete r then ok (rule 200 r) else err value_error

-- Does the request set a field to null that the response model wants?
abbrev pub has_null : RuleUpdate → Bool
has_null data_ =
    elim data_.config [ some none ↦ true | some (some _) ↦ false | none ↦ false ]
    || (elim data_.cooldown_seconds [ some none ↦ true | some (some _) ↦ false | none ↦ false ]
        || elim data_.is_active [ some none ↦ true | some (some _) ↦ false | none ↦ false ])

module _ (env : Env) (same_config : Dict Value → Dict Value → Bool) (k : ℕ) (data_ : RuleUpdate)
    (w : World) where
  pub update-refused :
      is_valid_update data_ ≡ false → update_rule env same_config k data_ w ≡ (ok (status 422), w)
  unfolding update_rule
  update-refused invalid = ground arith

  module _ (valid : is_valid_update data_ ≡ true) where
    pub update-missing :
        row rule_key k w.db.rules ≡ none
        → update_rule env same_config k data_ w ≡ (ok (status 404), w)
    unfolding update_rule
    update-missing missing = ground arith

    module _ {r : Rule} (found : row rule_key k w.db.rules ≡ some r) where
      pub update-same :
          is_changed same_config data_ r ≡ false
          → update_rule env same_config k data_ w ≡ (shown r, record w { committed = w.db })
      unfolding update_rule model_validate
      update-same same = ground arith

      pub update-null_name :
          is_changed same_config data_ r ≡ true
          → has_null_name data_ ≡ true
          → update_rule env same_config k data_ w
            ≡ (err integrity_error, record w { ticks = w.ticks + 1 })
      unfolding update_rule
      update-null_name changed null = ground arith

      pub update-changed :
          is_changed same_config data_ r ≡ true
          → has_null_name data_ ≡ false
          → let r' = updated data_ (env.clock w.ticks) r in
            let db' = record w.db { rules = update rule_key r' w.db.rules } in
            update_rule env same_config k data_ w
            ≡ (shown r', record w { db = db'; committed = db'; ticks = w.ticks + 1 })
      unfolding update_rule model_validate
      update-changed changed named = ground arith

same_complete :
    (same_config : Dict Value → Dict Value → Bool) (data_ : RuleUpdate) (r : Rule)
    → is_complete r ≡ true
    → is_changed same_config data_ r ≡ false
    → has_null data_ ≡ false
unfolding is_changed is_complete
same_complete same_config data_ r complete same = ground arith

pub updated_complete :
    (data_ : RuleUpdate) (now : ℕ) (r : Rule)
    → is_complete r ≡ true
    → is_complete (updated data_ now r) ≡ not (has_null data_)
unfolding is_complete
updated_complete data_ now r complete = ground arith

get_rule_lem :
    (env : Env) (k : ℕ) (w : World) {r : Rule}
    → row rule_key k w.db.rules ≡ some r
    → (get_rule env k w).0 ≡ shown r
unfolding get_rule model_validate
get_rule_lem env k w found = ground arith

apart_lem : {b : Bool} → b ≡ true → b ≡ false → ⊥
apart_lem h k = cc

module _ (env : Env) (same_config : Dict Value → Dict Value → Bool) (k : ℕ) (data_ : RuleUpdate)
    (w : World) where
  -- What is stored and answered once the route is through, when `r'` is the rule after it.
  abbrev Stored : Rule → Result Answer × World → Type 0
  Stored r' (result, w') =
      (result ≡ shown r')
      × ((get_rule env k w').0 ≡ shown r')
      × (row rule_key k w'.db.rules ≡ some r')
      × ((j : ℕ) → k ≢ j → row rule_key j w'.db.rules ≡ row rule_key j w.db.rules)
      × (w'.committed ≡ w'.db)

  pub update_lem :
      {r : Rule}
      → is_valid_update data_ ≡ true
      → row rule_key k w.db.rules ≡ some r
      → is_complete r ≡ true
      → has_null_name data_ ≡ false
      → let (result, w') = update_rule env same_config k data_ w in
        let r' =
          if is_changed same_config data_ r then updated data_ (env.clock w.ticks) r else r in
        (is_complete r' ≡ not (has_null data_))
        × (result ≡ shown r')
        × ((get_rule env k w').0 ≡ shown r')
        × (row rule_key k w'.db.rules ≡ some r')
        × ((j : ℕ) → k ≢ j → row rule_key j w'.db.rules ≡ row rule_key j w.db.rules)
        × (w'.committed ≡ w'.db)
  update_lem {r} valid found complete named =
      let r' = updated data_ (env.clock w.ticks) r in
      elim (Bool-cases (is_changed same_config data_ r)) [
        | inl changed ↦
            (let mine = row-key rule_key k w.db.rules found in
              let there =
                subst (λ i. row rule_key i (update rule_key r' w.db.rules) ≡ some r') mine
                  (row-update_self rule_key r' w.db.rules
                    (subst (λ i. row rule_key i w.db.rules ≡ some r) (sym mine) found)) in
              rw changed (
                rw (update-changed env same_config k data_ w valid found changed named) (
                  updated_complete data_ (env.clock w.ticks) r complete,
                  refl,
                  get_rule_lem env k _ there,
                  there,
                  (λ j apart. row-update_ne rule_key j r' w.db.rules (λ e. apart (sym mine ∙ e))),
                  refl,
                )))
        | inr same ↦ rw same (
            rw (update-same env same_config k data_ w valid found same) (
              complete ∙ ap not (sym (same_complete same_config data_ r complete same)),
              refl,
              get_rule_lem env k (record w { committed = w.db }) found,
              found,
              (λ j apart. refl),
              refl,
            ))
      ]

  -- A valid update of a stored rule that has no nulls, which does not set the name to null, is
  -- committed, and every other rule stays as it was. If each field that is set is set to the value
  -- that it has, by the equality of configurations that is given, the rule stays as it was too.
  -- Otherwise each field has what the request sets, or else its old value, and the timestamp is
  -- new. If the request sets neither the configuration nor the cooldown nor the activity to null,
  -- it is answered with 200 and the stored rule, which `get_rule` then answers too. If it sets one
  -- of them to null, the route raises ValueError after its commit, and so does every later
  -- `get_rule`.
  pub get-update :
      {r : Rule}
      → is_valid_update data_ ≡ true
      → row rule_key k w.db.rules ≡ some r
      → is_complete r ≡ true
      → has_null_name data_ ≡ false
      → let (result, w') = update_rule env same_config k data_ w in
        (r' : Rule) × ((IsSame same_config data_ r × (r' ≡ r))
          ⊎ ((¬ IsSame same_config data_ r) × IsUpdated data_ (env.clock w.ticks) r r'))
        × (is_complete r' ≡ not (has_null data_))
        × (result ≡ shown r')
        × ((get_rule env k w').0 ≡ shown r')
        × (row rule_key k w'.db.rules ≡ some r')
        × ((j : ℕ) → k ≢ j → row rule_key j w'.db.rules ≡ row rule_key j w.db.rules)
        × (w'.committed ≡ w'.db)
  get-update {r} valid found complete named =
      let (whole, answered, got, there, others, durable) = update_lem valid found complete named in
      (
        if is_changed same_config data_ r then updated data_ (env.clock w.ticks) r else r,
        (elim (Bool-cases (is_changed same_config data_ r)) [
          | inl changed ↦ rw changed (
              inr (
                (λ same. absurd (apart_lem changed (IsSame-is_changed same_config data_ r same))),
                updated-IsUpdated data_ (env.clock w.ticks) r,
              ))
          | inr same ↦ rw same (inl (is_changed-IsSame same_config data_ r same, refl))
        ]),
        whole,
        answered,
        got,
        there,
        others,
        durable,
      )
