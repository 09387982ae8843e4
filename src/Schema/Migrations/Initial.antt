-- ===== src/Schema/Migrations/Initial.antt =====
-- db/migrations/versions/001_initial.py
use hyperliquid_trading_aler.Prelude.{String, true, false, none, some, List, [], ◌∷◌, ◌++◌}
use hyperliquid_trading_aler.Schema.{
  SqlType, uuid, varchar, jsonb, integer, boolean, datetime, numeric, enum, Column, Operation,
  create_type_if_missing, drop_type_if_exists, create_table, drop_table, create_unique_constraint,
  drop_constraint, key, expression, create_index, drop_index, Revision,
}

-- `sa.Column(name, type, primary_key=True)`
abbrev pub primary : String → SqlType → Column
primary name type_ = record {
  name = name;
  type_ = type_;
  nullable = false;
  primary_key = true;
  server_default = none;
}

-- `sa.Column(name, type, nullable=False)`, with and without a default of the server's
abbrev pub required : String → SqlType → Column
required name type_ = record {
  name = name;
  type_ = type_;
  nullable = false;
  primary_key = false;
  server_default = none;
}

abbrev pub defaulted : String → SqlType → String → Column
defaulted name type_ value = record (required name type_) { server_default = some value }

-- `sa.Column(name, type, nullable=True)`
abbrev pub optional : String → SqlType → Column
optional name type_ = record (required name type_) { nullable = true }

unfoldable pub create_types : List Operation
create_types =
    create_type_if_missing "rule_type_enum"
      ("price_threshold" ∷ "percent_move" ∷ "candle_close" ∷ "macd_cross" ∷ [])
    ∷ create_type_if_missing "delivery_status_enum" ("pending" ∷ "delivered" ∷ "failed" ∷ [])
    ∷ []

unfoldable pub create_rules : Operation
create_rules = create_table (record {
  name = "rules";
  columns =
      primary "id" uuid
      ∷ required "name" varchar
      ∷ required "rule_type" (enum "rule_type_enum")
      ∷ required "symbol" varchar
      ∷ required "config" jsonb
      ∷ record (optional "cooldown_seconds" integer) { server_default = some "0" }
      ∷ optional "discord_webhook_url" varchar
      ∷ optional "generic_webhook_url" varchar
      ∷ record (optional "is_active" boolean) { server_default = some "true" }
      ∷ required "created_at" datetime
      ∷ required "updated_at" datetime
      ∷ [];
  foreign_keys = [];
  uniques = [];
})

unfoldable pub create_alerts : Operation
create_alerts = create_table (record {
  name = "alerts";
  columns =
      primary "id" uuid
      ∷ required "rule_id" uuid
      ∷ required "symbol" varchar
      ∷ required "rule_type" varchar
      ∷ required "triggered_at" datetime
      ∷ optional "trigger_value" (numeric 20 8)
      ∷ required "window_start" datetime
      ∷ required "window_end" datetime
      ∷ defaulted "delivery_status" (enum "delivery_status_enum") "pending"
      ∷ defaulted "delivery_attempts" integer "0"
      ∷ optional "last_delivery_attempt" datetime
      ∷ required "created_at" datetime
      ∷ [];
  foreign_keys = record { column = "rule_id"; target = "rules.id"; ondelete = some "CASCADE" } ∷ [];
  uniques = [];
})

unfoldable pub create_candles : Operation
create_candles = create_table (record {
  name = "candles";
  columns =
      primary "id" uuid
      ∷ required "symbol" varchar
      ∷ required "timestamp" datetime
      ∷ required "open" (numeric 20 8)
      ∷ required "high" (numeric 20 8)
      ∷ required "low" (numeric 20 8)
      ∷ required "close" (numeric 20 8)
      ∷ optional "volume" (numeric 20 8)
      ∷ defaulted "interval_seconds" integer "900"
      ∷ required "created_at" datetime
      ∷ [];
  foreign_keys = [];
  uniques = [];
})

unfoldable pub create_worker_cursors : Operation
create_worker_cursors = create_table (record {
  name = "worker_cursors";
  columns =
      primary "id" uuid
      ∷ required "worker_id" varchar
      ∷ required "symbol" varchar
      ∷ required "last_processed_timestamp" datetime
      ∷ required "updated_at" datetime
      ∷ [];
  foreign_keys = [];
  uniques = [];
})

unfoldable pub create_constraints : List Operation
create_constraints =
    create_unique_constraint "uq_alert_window" "alerts"
      ("rule_id" ∷ "window_start" ∷ "window_end" ∷ [])
    ∷ create_unique_constraint "uq_candle_symbol_time_interval" "candles"
        ("symbol" ∷ "timestamp" ∷ "interval_seconds" ∷ [])
    ∷ create_unique_constraint "uq_worker_cursor" "worker_cursors" ("worker_id" ∷ "symbol" ∷ [])
    ∷ []

unfoldable pub create_indexes : List Operation
create_indexes =
    create_index "idx_alerts_rule_id" "alerts" (key "rule_id" ∷ []) none
    ∷ create_index "idx_alerts_delivery_status" "alerts" (key "delivery_status" ∷ [])
        (some "delivery_status = 'pending'")
    ∷ create_index "idx_alerts_triggered_at" "alerts" (expression "triggered_at DESC" ∷ []) none
    ∷ create_index "idx_rules_active_symbol" "rules" (key "is_active" ∷ key "symbol" ∷ [])
        (some "is_active = true")
    ∷ create_index "idx_candles_symbol_timestamp" "candles"
        (key "symbol" ∷ expression "timestamp DESC" ∷ []) none
    ∷ []

-- `upgrade`, after the two types
unfoldable pub create_relations : List Operation
create_relations =
    create_rules
    ∷ create_alerts
    ∷ create_candles
    ∷ create_worker_cursors
    ∷ (create_constraints ++ create_indexes)

unfoldable pub drop_relations : List Operation
drop_relations =
    drop_index "idx_candles_symbol_timestamp" "candles"
    ∷ drop_index "idx_rules_active_symbol" "rules"
    ∷ drop_index "idx_alerts_triggered_at" "alerts"
    ∷ drop_index "idx_alerts_delivery_status" "alerts"
    ∷ drop_index "idx_alerts_rule_id" "alerts"
    ∷ drop_constraint "uq_worker_cursor" "worker_cursors"
    ∷ drop_constraint "uq_candle_symbol_time_interval" "candles"
    ∷ drop_constraint "uq_alert_window" "alerts"
    ∷ drop_table "worker_cursors"
    ∷ drop_table "candles"
    ∷ drop_table "alerts"
    ∷ drop_table "rules"
    ∷ []

unfoldable pub drop_types : List Operation
drop_types = drop_type_if_exists "delivery_status_enum" ∷ drop_type_if_exists "rule_type_enum" ∷ []

unfoldable pub initial : Revision
initial = record {
  revision = "001_initial";
  down_revision = none;
  upgrade = create_types ++ create_relations;
  downgrade = drop_relations ++ drop_types;
}
