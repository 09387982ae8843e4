-- ===== src/Tests/Server.antt =====
-- A catalogue that keeps what is created by name: a server that satisfies the laws of the migrations.
use hyperliquid_trading_aler.Prelude.{
  ◌≡◌, String, Bool, false, ◌&&◌, ◌||◌, some, key_error, Result, ok, err, List, [], ◌∷◌, map,
  str_eq, str_eq_refl, if◌then◌else◌, arith,
}
use hyperliquid_trading_aler.Schema.{
  Operation, create_type_if_missing, drop_type_if_exists, add_value_if_missing, create_table,
  drop_table, create_unique_constraint, drop_constraint, create_index, drop_index, Server,
}
use hyperliquid_trading_aler.Schema.Downgrade.{inverse, ServerLaws}

-- Tables by name, constraints and indexes by name and table, and types with their labels.
pub record Names : Type 0 where
  pub tables : List String
  pub constraints : List (String × String)
  pub indexes : List (String × String)
  pub types : List (String × List String)

abbrev has {ℓ} : {A : Type ℓ} → (A → Bool) → List A → Bool
has p [] = false
has p (x ∷ xs) = p x || has p xs

abbrev drop_first {ℓ} : {A : Type ℓ} → (A → Bool) → List A → Result (List A)
drop_first p [] = err key_error
drop_first p (x ∷ xs) =
    let rest = drop_first p xs in
    if p x then ok xs else elim rest [ ok r ↦ ok (x ∷ r) | err e ↦ err e ]

abbrev is_pair : String × String → String × String → Bool
is_pair a b = str_eq b.0 a.0 && str_eq b.1 a.1

abbrev is_type : String → String × List String → Bool
is_type name e = str_eq e.0 name

abbrev with_tables : Names → Result (List String) → Result Names
with_tables s (ok ts) = ok (record s { tables = ts })
with_tables s (err e) = err e

abbrev with_constraints : Names → Result (List (String × String)) → Result Names
with_constraints s (ok ps) = ok (record s { constraints = ps })
with_constraints s (err e) = err e

abbrev with_indexes : Names → Result (List (String × String)) → Result Names
with_indexes s (ok ps) = ok (record s { indexes = ps })
with_indexes s (err e) = err e

abbrev with_types : Names → Result (List (String × List String)) → Result Names
with_types s (ok ts) = ok (record s { types = ts })
with_types s (err e) = ok s

abbrev add {ℓ} : {A : Type ℓ} → (A → Bool) → A → List A → Result (List A)
add p x xs = if has p xs then err key_error else ok (x ∷ xs)

abbrev run : Operation → Names → Result Names
run (create_type_if_missing name labels) s =
    if has (is_type name) s.types then ok s else ok (record s { types = (name, labels) ∷ s.types })
run (drop_type_if_exists name) s = with_types s (drop_first (is_type name) s.types)
run (add_value_if_missing name label) s = ok (record s {
  types =
      map (λ (e : String × List String). if is_type name e then (e.0, label ∷ e.1) else e) s.types;
})
run (create_table t) s = with_tables s (add (λ n. str_eq n t.name) t.name s.tables)
run (drop_table name) s = with_tables s (drop_first (λ n. str_eq n name) s.tables)
run (create_unique_constraint name table columns) s =
    with_constraints s (add (is_pair (name, table)) (name, table) s.constraints)
run (drop_constraint name table) s =
    with_constraints s (drop_first (is_pair (name, table)) s.constraints)
run (create_index name table keys where_) s =
    with_indexes s (add (is_pair (name, table)) (name, table) s.indexes)
run (drop_index name table) s = with_indexes s (drop_first (is_pair (name, table)) s.indexes)

abbrev pub server : Server
server = record { Catalogue = Names; run = run; has_type = λ name s. has (is_type name) s.types }

abbrev pub empty : Names
empty = record { tables = []; constraints = []; indexes = []; types = [] }

undo_lem :
    (op op' : Operation) (s s' : Names)
    → inverse op ≡ some op'
    → run op s ≡ ok s'
    → run op' s' ≡ ok s
undo_lem (create_table t) op' s s' i e = grind (arith, str_eq_refl)
undo_lem (create_unique_constraint name table columns) op' s s' i e = grind (arith, str_eq_refl)
undo_lem (create_index name table keys where_) op' s s' i e = grind (arith, str_eq_refl)
undo_lem _ op' s s' i e = absurd (cc)

undo_type_lem :
    (name : String) (labels : List String) (s s' : Names)
    → has (is_type name) s.types ≡ false
    → run (create_type_if_missing name labels) s ≡ ok s'
    → run (drop_type_if_exists name) s' ≡ ok s
undo_type_lem name labels s s' new e = grind (arith, str_eq_refl)

other_type_lem :
    (name other : String) (labels : List String) (s s' : Names)
    → str_eq name other ≡ false
    → run (create_type_if_missing name labels) s ≡ ok s'
    → has (is_type other) s'.types ≡ has (is_type other) s.types
other_type_lem name other labels s s' differs e = grind (arith, str_eq_refl)

pub server-Laws : ServerLaws server
server-Laws = record { undo = undo_lem; undo_type = undo_type_lem; other_type = other_type_lem }
