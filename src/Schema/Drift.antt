-- ===== src/Schema/Drift.antt =====
-- The migrations (db/migrations/versions/) against the models (db/models/): the schema that each leaves.
use hyperliquid_trading_aler.Prelude.{
  ◌≡◌, refl, String, Bool, false, ◌||◌, none, some, List, [], ◌∷◌, ◌++◌, map, find, select, not,
  str_eq, if◌then◌else◌,
}
use hyperliquid_trading_aler.Schema.{
  Column, ForeignKey, Unique, Table, Operation, create_type_if_missing, drop_type_if_exists,
  add_value_if_missing, create_table, drop_table, create_unique_constraint, drop_constraint,
}
use hyperliquid_trading_aler.Schema.Migrations.{revisions, all_upgrades}
use hyperliquid_trading_aler.Schema.Migrations.Initial.{
  create_types, create_rules, create_alerts, create_candles, create_worker_cursors,
  create_constraints, create_indexes, create_relations, initial,
}
use hyperliquid_trading_aler.Schema.Migrations.Later.{
  add_alert_delivery_attempts, add_api_keys, extend_rule_type_enum,
}
use hyperliquid_trading_aler.Schema.Models.{
  rule_table, alert_table, candle_table, worker_cursor_table, delivery_attempt_table, api_key_table,
  model_tables, model_enums,
}

-- The tables after an operation.
abbrev pub change_table : String → (Table → Table) → List Table → List Table
change_table name f = map (λ (t : Table). if str_eq t.name name then f t else t)

abbrev pub tables_after : List Operation → List Table → List Table
tables_after [] ts = ts
tables_after (create_table t ∷ rest) ts = tables_after rest (ts ++ t ∷ [])
tables_after (drop_table name ∷ rest) ts =
    tables_after rest (select (λ (t : Table). not (str_eq t.name name)) ts)
tables_after (create_unique_constraint name table columns ∷ rest) ts = tables_after rest (
    change_table table
      (λ t. record t { uniques = t.uniques ++ record { name = name; columns = columns } ∷ [] }) ts)
tables_after (drop_constraint name table ∷ rest) ts = tables_after rest (
    change_table table
      (λ t. record t { uniques = select (λ (u : Unique). not (str_eq u.name name)) t.uniques }) ts)
tables_after (op ∷ rest) ts = tables_after rest ts

-- The enum types after an operation, each with its labels.
abbrev pub Enums : Type 0
Enums = List (String × List String)

abbrev pub is_named : String → String × List String → Bool
is_named name e = str_eq e.0 name

abbrev pub has_text : String → List String → Bool
has_text s [] = false
has_text s (x ∷ xs) = str_eq x s || has_text s xs

abbrev pub enums_after : List Operation → Enums → Enums
enums_after [] es = es
enums_after (create_type_if_missing name labels ∷ rest) es =
    enums_after rest
      (elim (find (is_named name) es) [ none ↦ es ++ (name, labels) ∷ [] | some _ ↦ es ])
enums_after (drop_type_if_exists name ∷ rest) es =
    enums_after rest (select (λ e. not (is_named name e)) es)
enums_after (add_value_if_missing name label ∷ rest) es = enums_after rest (
    map
      (λ (e : String × List String).
        if is_named name e then if has_text label e.1 then e else (e.0, e.1 ++ label ∷ []) else e)
      es)
enums_after (op ∷ rest) es = enums_after rest es

-- What the ORM relies on in a table: its columns with their types, keys and nullability, the
-- columns that refer to others, and the sets of columns that are unique.
pub record View : Type 0 where
  pub name : String
  pub columns : List Column
  pub references : List ForeignKey
  pub uniques : List (List String)

abbrev pub view : Table → View
view t = record {
  name = t.name;
  columns = map (λ (c : Column). record c { server_default = none }) t.columns;
  references = t.foreign_keys;
  uniques = map (λ (u : Unique). u.columns) t.uniques;
}

-- The model of the alerts, whose reference to the rule has no ON DELETE, with the one of the migration.
abbrev pub cascading : Table → Table
cascading t =
    if str_eq t.name "alerts"
    then record t {
      foreign_keys =
          map (λ (k : ForeignKey). record k { ondelete = some "CASCADE" }) t.foreign_keys;
    }
    else t

-- Under every name, the migrations leave on a new database the table that the models declare, or
-- neither has one: the same columns in the same order with the same types, primary keys and
-- nullability, the same references and the same unique sets of columns, but that the reference of an
-- alert to its rule deletes on cascade, which the model leaves out. And every enum type has the
-- labels that the models give it.
pub schema_in_step :
    (name : String)
    → let ops = all_upgrades revisions in
      (find (λ (v : View). str_eq v.name name) (map view (tables_after ops []))
        ≡ find (λ (v : View). str_eq v.name name) (map (λ t. view (cascading t)) model_tables))
      × (find (is_named name) (enums_after ops []) ≡ find (is_named name) model_enums)
unfolding all_upgrades revisions initial create_relations create_types create_rules create_alerts
    create_candles create_worker_cursors create_constraints create_indexes
    add_alert_delivery_attempts add_api_keys extend_rule_type_enum model_tables model_enums
    rule_table alert_table candle_table worker_cursor_table delivery_attempt_table api_key_table
schema_in_step name = (refl, refl)
