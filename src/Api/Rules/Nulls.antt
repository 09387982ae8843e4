-- ===== src/Api/Rules/Nulls.antt =====
-- Which requests keep the list of rules readable (api/routes/rules.py).
use hyperliquid_trading_aler.Prelude.{
  ℕ, ◌≡◌, ◌≤◌, refl, sym, subst, ap, String, Bool, false, not, Option, some, Result, ok, err, List,
  [], ◌∷◌, length, take, drop, All, arith, Bool-cases, Option-cases, inl, inr, ◌==◌, ◌∙◌,
}
use hyperliquid_trading_aler.Db.{Env, World, M}
use hyperliquid_trading_aler.Db.Session.{get_db_session}
use hyperliquid_trading_aler.Db.Rows.{Rule, Dict, Value}
use hyperliquid_trading_aler.Db.Table.{row, update, remove}
use hyperliquid_trading_aler.Api.Rules.{
  RuleCreate, RuleUpdate, Answer, page, rule_key, is_complete, is_valid_update, has_null_name,
  is_changed, updated, create_rule, update_rule, delete_rule, list_rules, matching, delete_cascade,
}
use hyperliquid_trading_aler.Api.Rules.Crud.{create_lem, delete-missing, delete-found}
use hyperliquid_trading_aler.Api.Rules.Pages.{IsComplete, list_rules_lem}
use hyperliquid_trading_aler.Api.Rules.Update.{
  has_null, update-refused, update-missing, update-same, update-null_name, update-changed,
  updated_complete,
}

-- Everything is committed, and no rule has a null that the response model does not take.
abbrev pub IsReadable : World → Type 0
IsReadable w = (w.committed ≡ w.db) × All IsComplete w.db.rules

remove-All : (k : ℕ) (t : List Rule) → All IsComplete t → All IsComplete (remove rule_key k t)
remove-All k [] h = tt
remove-All k (r ∷ t) h = elim (Bool-cases (r.id == k)) [
  | inl here ↦ rw here h.1
  | inr apart ↦ rw apart (h.0, remove-All k t h.1)
]

update-All :
    (b : Rule) (t : List Rule)
    → IsComplete b
    → All IsComplete t
    → All IsComplete (update rule_key b t)
update-All b [] new_ h = tt
update-All b (r ∷ t) new_ h = elim (Bool-cases (r.id == b.id)) [
  | inl here ↦ rw here (new_, h.1)
  | inr apart ↦ rw apart (h.0, update-All b t new_ h.1)
]

row-IsComplete :
    (k : ℕ) (t : List Rule) {r : Rule} → All IsComplete t → row rule_key k t ≡ some r → IsComplete r
row-IsComplete k [] h found = absurd (cc)
row-IsComplete k (x ∷ t) {r} h found = elim (Bool-cases (x.id == k)) [
  | inl here ↦ subst IsComplete (ground arith) h.0
  | inr apart ↦ row-IsComplete k t h.1 (rw apart at found)
]

ended-IsReadable :
    (out : Result Answer × World) (w : World)
    → IsReadable out.1
    → IsReadable (get_db_session (λ _. out) w).1
unfolding get_db_session
ended-IsReadable (ok a, u) w (durable, complete) = (refl, complete)
ended-IsReadable (err e, u) w (durable, complete) = (refl, rw durable complete)

session-IsReadable :
    (route : M Answer) (w : World) → IsReadable (route w).1 → IsReadable (get_db_session route w).1
unfolding get_db_session
session-IsReadable route w = ended-IsReadable (route w) w

module _ (env : Env) (same_config : Dict Value → Dict Value → Bool) where
  create-IsReadable :
      (data_ : RuleCreate) (w : World) → IsReadable w → IsReadable (create_rule env data_ w).1
  unfolding is_complete
  create-IsReadable data_ w (durable, complete) = elim (create_lem env data_ w) [
    | inl (_, (_, _, added, durable')) ↦ (durable', rw added (refl, complete))
    | inr (_, _, same) ↦ subst IsReadable (sym same) (durable, complete)
  ]

  delete-IsReadable : (k : ℕ) (w : World) → IsReadable w → IsReadable (delete_rule env k w).1
  unfolding delete_cascade
  delete-IsReadable k w (durable, complete) = elim (Option-cases (row rule_key k w.db.rules)) [
    | inl missing ↦ rw (delete-missing env k w missing) (durable, complete)
    | inr (r, found) ↦ rw (delete-found env k w found) (refl, remove-All k w.db.rules complete)
  ]

  update-IsReadable :
      (k : ℕ) (data_ : RuleUpdate) (w : World)
      → has_null data_ ≡ false
      → IsReadable w
      → IsReadable (update_rule env same_config k data_ w).1
  update-IsReadable k data_ w given (durable, complete) =
      elim (Bool-cases (is_valid_update data_)) [
        | inr invalid ↦ rw (update-refused env same_config k data_ w invalid) (durable, complete)
        | inl valid ↦ elim (Option-cases (row rule_key k w.db.rules)) [
          | inl missing ↦
              rw (update-missing env same_config k data_ w valid missing) (durable, complete)
          | inr (r, found) ↦ elim (Bool-cases (is_changed same_config data_ r)) [
            | inr same ↦
                rw (update-same env same_config k data_ w valid found same) (refl, complete)
            | inl changed ↦ elim (Bool-cases (has_null_name data_)) [
              | inl null ↦
                  rw (update-null_name env same_config k data_ w valid found changed null)
                    (durable, complete)
              | inr named ↦
                  (let now = env.clock w.ticks in
                    let whole : IsComplete (updated data_ now r) =
                      updated_complete data_ now r (row-IsComplete k w.db.rules complete found)
                      ∙ ap not given in
                    rw (update-changed env same_config k data_ w valid found changed named)
                      (refl, update-All (updated data_ now r) w.db.rules whole complete))
            ]
          ]
        ]
      ]

  -- The requests that change rules, each in its session, of which none sets the configuration, the
  -- cooldown or the activity to null.
  pub data Requests (w : World) : World → Type 0 where
    begin : Requests w w
    creates :
        {u : World} (data_ : RuleCreate)
        → Requests w u
        → Requests w (get_db_session (create_rule env data_) u).1
    updates :
        {u : World} (k : ℕ) (data_ : RuleUpdate)
        → has_null data_ ≡ false
        → Requests w u
        → Requests w (get_db_session (update_rule env same_config k data_) u).1
    deletes :
        {u : World} (k : ℕ) → Requests w u → Requests w (get_db_session (delete_rule env k) u).1

  Requests-IsReadable : {w u : World} → Requests w u → IsReadable w → IsReadable u
  Requests-IsReadable begin h = h
  Requests-IsReadable (creates {u} data_ before) h =
      session-IsReadable (create_rule env data_) u
        (create-IsReadable data_ u (Requests-IsReadable before h))
  Requests-IsReadable (updates {u} k data_ given before) h =
      session-IsReadable (update_rule env same_config k data_) u
        (update-IsReadable k data_ u given (Requests-IsReadable before h))
  Requests-IsReadable (deletes {u} k before) h =
      session-IsReadable (delete_rule env k) u
        (delete-IsReadable k u (Requests-IsReadable before h))

  -- If everything is committed and no stored rule has a null, then after any requests that create, delete
  -- and change rules, of which none sets a configuration, cooldown or activity to null, the list of
  -- rules is answered with a page, for every filter, every limit from 1 to 100 and every offset.
  pub rules_listed :
      {w u : World} (symbol : Option String) (is_active : Option Bool) (limit offset : ℕ)
      → Requests w u
      → w.committed ≡ w.db
      → All IsComplete w.db.rules
      → 1 ≤ limit
      → limit ≤ 100
      → let rows = matching env symbol is_active u.db in
        list_rules env symbol is_active limit offset u
        ≡ (ok (page (take limit (drop offset rows)) (length rows)), u)
  rules_listed {w} {u} symbol is_active limit offset requests durable complete least most =
      list_rules_lem env symbol is_active limit offset u least most
        (Requests-IsReadable requests (durable, complete)).1
