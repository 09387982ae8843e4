-- ===== src/Schema/Downgrade.antt =====
-- The downgrades of db/migrations/versions/ undo the upgrades.
use hyperliquid_trading_aler.Prelude.{
  ◌≡◌, refl, subst, ◌∙◌, inl, inr, Option-cases, str_eq, String, false, Option, none, some, ok,
  >>=-eq-ok, List, [], ◌∷◌, ◌++◌, ok-injective,
}
use hyperliquid_trading_aler.Schema.{
  Operation, create_type_if_missing, drop_type_if_exists, create_table, drop_table,
  create_unique_constraint, drop_constraint, create_index, drop_index, Server, Revision,
}
use hyperliquid_trading_aler.Schema.Migrations.{run_all, all_upgrades, all_downgrades}
use hyperliquid_trading_aler.Schema.Migrations.Initial.{
  create_types, create_rules, create_alerts, create_candles, create_worker_cursors,
  create_constraints, create_indexes, create_relations, drop_relations, drop_types, initial,
}
use hyperliquid_trading_aler.Schema.Migrations.Later.{add_alert_delivery_attempts, add_api_keys}

-- The operation that drops what another creates; none for one that creates nothing by itself.
abbrev pub inverse : Operation → Option Operation
inverse (create_table t) = some (drop_table t.name)
inverse (create_unique_constraint name table columns) = some (drop_constraint name table)
inverse (create_index name table keys where_) = some (drop_index name table)
inverse _ = none

-- The revisions up to 003: the downgrade of 004 leaves its labels in place.
abbrev pub upgraded : List Revision
upgraded = initial ∷ add_alert_delivery_attempts ∷ add_api_keys ∷ []

-- What undoes a list of operations: their inverses, the last first.
abbrev pub inverses : List Operation → Option (List Operation)
inverses [] = some []
inverses (op ∷ rest) = elim (inverses rest) [
  | none ↦ none
  | some later ↦ (elim (inverse op) [ none ↦ none | some back ↦ some (later ++ back ∷ []) ])
]

some-injective : {A : Type 0} {a b : A} → some a ≡ some b → a ≡ b
some-injective h = cc

inverses-cons :
    (op : Operation) (rest : List Operation) {back : List Operation}
    → inverses (op ∷ rest) ≡ some back
    → (later : List Operation) × (x : Operation) × (inverses rest ≡ some later)
      × (inverse op ≡ some x)
      × ((later ++ x ∷ []) ≡ back)
inverses-cons op rest i = elim (Option-cases (inverses rest)) [
  | inl missing ↦ absurd (cc)
  | inr (later, el) ↦ (elim (Option-cases (inverse op)) [
    | inl missing ↦ absurd (cc)
    | inr (x, ex) ↦ (later, x, el, ex, some-injective (rw (el, ex) at i))
  ])
]

-- Each downgrade is the inverse of its upgrade.
relations-undone : inverses create_relations ≡ some drop_relations
unfolding create_relations drop_relations create_rules create_alerts create_candles
    create_worker_cursors create_constraints create_indexes
relations-undone = refl

attempts-undone :
    inverses add_alert_delivery_attempts.upgrade ≡ some add_alert_delivery_attempts.downgrade
unfolding add_alert_delivery_attempts
attempts-undone = refl

keys-undone : inverses add_api_keys.upgrade ≡ some add_api_keys.downgrade
unfolding add_api_keys
keys-undone = refl

module _ (server : Server) where
  open server use {Catalogue, run, has_type}

  -- What PostgreSQL documents: a drop right after the creation undoes it; so does the drop of a
  -- type, which the creation leaves alone if it is there; and no type comes with another.
  pub record ServerLaws : Type 0 where
    pub undo :
        (op op' : Operation) (s s' : Catalogue)
        → inverse op ≡ some op'
        → run op s ≡ ok s'
        → run op' s' ≡ ok s
    pub undo_type :
        (name : String) (labels : List String) (s s' : Catalogue)
        → has_type name s ≡ false
        → run (create_type_if_missing name labels) s ≡ ok s'
        → run (drop_type_if_exists name) s' ≡ ok s
    pub other_type :
        (name other : String) (labels : List String) (s s' : Catalogue)
        → str_eq name other ≡ false
        → run (create_type_if_missing name labels) s ≡ ok s'
        → has_type other s' ≡ has_type other s

  run_all-append :
      (first later : List Operation) (s : Catalogue) {s' : Catalogue}
      → run_all server first s ≡ ok s'
      → run_all server (first ++ later) s ≡ run_all server later s'
  run_all-append [] later s e = cc
  run_all-append (op ∷ first) later s e =
      let (s1, e1, e2) = >>=-eq-ok (run op s) _ e in rw (e1, run_all-append first later s1 e2)

  run_all-split :
      (first later : List Operation) (s : Catalogue) {s' : Catalogue}
      → run_all server (first ++ later) s ≡ ok s'
      → (m : Catalogue) × (run_all server first s ≡ ok m) × (run_all server later m ≡ ok s')
  run_all-split [] later s e = (s, refl, e)
  run_all-split (op ∷ first) later s e =
      let (s1, e1, e2) = >>=-eq-ok (run op s) _ e in
      let (m, em, el) = run_all-split first later s1 e2 in (m, rw (e1, em), el)

  module _ (laws : ServerLaws) where
    open laws use {undo, undo_type, other_type}

    run_all-inverses :
        (ops : List Operation) {back : List Operation} (s : Catalogue) {s' : Catalogue}
        → inverses ops ≡ some back
        → run_all server ops s ≡ ok s'
        → run_all server back s' ≡ ok s
    run_all-inverses [] s i e = cc
    run_all-inverses (op ∷ rest) s {s'} i e =
        let (s1, e1, e2) = >>=-eq-ok (run op s) _ e in
        let (later, x, el, ex, same) = inverses-cons op rest i in
        subst (λ b. run_all server b s' ≡ ok s) same
          (run_all-append later (x ∷ []) s' (run_all-inverses rest s1 el e2)
            ∙ rw (undo op x s s1 ex e1))

    -- The two enum types.
    drop_types-undo :
        (s : Catalogue) {s' : Catalogue}
        → has_type "rule_type_enum" s ≡ false
        → has_type "delivery_status_enum" s ≡ false
        → run_all server create_types s ≡ ok s'
        → run_all server drop_types s' ≡ ok s
    unfolding create_types drop_types
    drop_types-undo s {s'} no_rule no_delivery e =
        let (s1, e1, h) = >>=-eq-ok (run (create_type_if_missing "rule_type_enum" _) s) _ e in
        let (s2, e2, last) =
          >>=-eq-ok (run (create_type_if_missing "delivery_status_enum" _) s1) _ h in
        let still : has_type "delivery_status_enum" s1 ≡ false =
          other_type "rule_type_enum" "delivery_status_enum" _ s s1 refl e1 ∙ no_delivery in
        let back2 = undo_type "delivery_status_enum" _ s1 s2 still e2 in
        let back1 = undo_type "rule_type_enum" _ s s1 no_rule e1 in
        subst (λ t. run_all server drop_types t ≡ ok s) (ok-injective last) (rw (back2, back1))

    initial-undo :
        (s : Catalogue) {s' : Catalogue}
        → has_type "rule_type_enum" s ≡ false
        → has_type "delivery_status_enum" s ≡ false
        → run_all server initial.upgrade s ≡ ok s'
        → run_all server initial.downgrade s' ≡ ok s
    unfolding initial
    initial-undo s no_rule no_delivery e =
        let (m, em, el) = run_all-split create_types create_relations s e in
        run_all-append drop_relations drop_types _
          (run_all-inverses create_relations m relations-undone el)
        ∙ drop_types-undo s no_rule no_delivery em

    -- If the operations of the upgrades to revision 003 succeed on a database that has neither enum
    -- type, then the operations of the downgrades to the base succeed after them and give back the
    -- tables, constraints, indexes and types, given that on the server a drop right after the
    -- creation undoes it. Alembic's own table of the version is not part of the catalogue.
    pub downgrade-upgrade :
        (s s' : Catalogue)
        → has_type "rule_type_enum" s ≡ false
        → has_type "delivery_status_enum" s ≡ false
        → run_all server (all_upgrades upgraded) s ≡ ok s'
        → run_all server (all_downgrades upgraded) s' ≡ ok s
    unfolding all_upgrades all_downgrades
    downgrade-upgrade s s' no_rule no_delivery e =
        let (s1, e1, h1) = run_all-split initial.upgrade _ s e in
        let (s2, e2, h2) = run_all-split add_alert_delivery_attempts.upgrade _ s1 h1 in
        let (s3, e3, last) = run_all-split add_api_keys.upgrade _ s2 h2 in
        let b3 = run_all-inverses add_api_keys.upgrade s2 keys-undone e3 in
        let b2 = run_all-inverses add_alert_delivery_attempts.upgrade s1 attempts-undone e2 in
        let b1 = initial-undo s no_rule no_delivery e1 in
        subst (λ t. run_all server (all_downgrades upgraded) t ≡ ok s) (ok-injective last)
          (run_all-append (add_api_keys.downgrade ++ add_alert_delivery_attempts.downgrade)
              initial.downgrade s3
              (run_all-append add_api_keys.downgrade add_alert_delivery_attempts.downgrade s3 b3
                ∙ b2)
            ∙ b1)
