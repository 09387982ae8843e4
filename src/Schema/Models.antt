-- ===== src/Schema/Models.antt =====
-- The tables as the ORM classes declare them on PostgreSQL (db/models/), where `JSON().with_variant` is JSONB. A default of the client's is no part of the
-- schema, and `unique=True, index=True` is a unique index.
use hyperliquid_trading_aler.Prelude.{String, none, some, List, [], ◌∷◌}
use hyperliquid_trading_aler.Schema.{
  uuid, varchar, text, jsonb, integer, boolean, datetime, numeric, enum, Table,
}
use hyperliquid_trading_aler.Schema.Migrations.Initial.{primary, required, optional}

unfoldable pub rule_table : Table
rule_table = record {
  name = "rules";
  columns =
      primary "id" uuid
      ∷ required "name" varchar
      ∷ required "rule_type" (enum "rule_type_enum")
      ∷ required "symbol" varchar
      ∷ required "config" jsonb
      ∷ optional "cooldown_seconds" integer
      ∷ optional "discord_webhook_url" varchar
      ∷ optional "generic_webhook_url" varchar
      ∷ optional "is_active" boolean
      ∷ required "created_at" datetime
      ∷ required "updated_at" datetime
      ∷ [];
  foreign_keys = [];
  uniques = [];
}

unfoldable pub alert_table : Table
alert_table = record {
  name = "alerts";
  columns =
      primary "id" uuid
      ∷ required "rule_id" uuid
      ∷ required "symbol" varchar
      ∷ required "rule_type" varchar
      ∷ required "triggered_at" datetime
      ∷ optional "trigger_value" (numeric 20 8)
      ∷ required "window_start" datetime
      ∷ required "window_end" datetime
      ∷ required "delivery_status" (enum "delivery_status_enum")
      ∷ required "delivery_attempts" integer
      ∷ optional "last_delivery_attempt" datetime
      ∷ required "created_at" datetime
      ∷ [];
  foreign_keys = record { column = "rule_id"; target = "rules.id"; ondelete = none } ∷ [];
  uniques =
      record { name = "uq_alert_window"; columns = "rule_id" ∷ "window_start" ∷ "window_end" ∷ [] }
      ∷ [];
}

unfoldable pub candle_table : Table
candle_table = record {
  name = "candles";
  columns =
      primary "id" uuid
      ∷ required "symbol" varchar
      ∷ required "timestamp" datetime
      ∷ required "open" (numeric 20 8)
      ∷ required "high" (numeric 20 8)
      ∷ required "low" (numeric 20 8)
      ∷ required "close" (numeric 20 8)
      ∷ optional "volume" (numeric 20 8)
      ∷ required "interval_seconds" integer
      ∷ required "created_at" datetime
      ∷ [];
  foreign_keys = [];
  uniques =
      record {
        name = "uq_candle_symbol_time_interval";
        columns = "symbol" ∷ "timestamp" ∷ "interval_seconds" ∷ [];
      }
      ∷ [];
}

unfoldable pub worker_cursor_table : Table
worker_cursor_table = record {
  name = "worker_cursors";
  columns =
      primary "id" uuid
      ∷ required "worker_id" varchar
      ∷ required "symbol" varchar
      ∷ required "last_processed_timestamp" datetime
      ∷ required "updated_at" datetime
      ∷ [];
  foreign_keys = [];
  uniques = record { name = "uq_worker_cursor"; columns = "worker_id" ∷ "symbol" ∷ [] } ∷ [];
}

unfoldable pub delivery_attempt_table : Table
delivery_attempt_table = record {
  name = "alert_delivery_attempts";
  columns =
      primary "id" uuid
      ∷ required "alert_id" uuid
      ∷ required "attempt_no" integer
      ∷ required "status" varchar
      ∷ optional "response_code" integer
      ∷ optional "latency_ms" integer
      ∷ optional "error" text
      ∷ required "created_at" datetime
      ∷ [];
  foreign_keys =
      record { column = "alert_id"; target = "alerts.id"; ondelete = some "CASCADE" } ∷ [];
  uniques = [];
}

unfoldable pub api_key_table : Table
api_key_table = record {
  name = "api_keys";
  columns =
      primary "id" uuid
      ∷ required "name" varchar
      ∷ required "key_hash" varchar
      ∷ required "requests_per_minute" integer
      ∷ required "is_active" boolean
      ∷ required "created_at" datetime
      ∷ optional "last_used_at" datetime
      ∷ [];
  foreign_keys = [];
  uniques = record { name = "ix_api_keys_key_hash"; columns = "key_hash" ∷ [] } ∷ [];
}

-- `Base.metadata.tables`
unfoldable pub model_tables : List Table
model_tables =
    rule_table ∷ alert_table ∷ candle_table ∷ worker_cursor_table ∷ delivery_attempt_table
    ∷ api_key_table ∷ []

-- The labels of each `SQLEnum`, under its name.
unfoldable pub model_enums : List (String × List String)
model_enums =
    (
      "rule_type_enum",
      "price_threshold" ∷ "percent_move" ∷ "candle_close" ∷ "macd_cross" ∷ "rsi" ∷ "bollinger_bands"
          ∷ [],
    )
    ∷ ("delivery_status_enum", "pending" ∷ "delivered" ∷ "failed" ∷ [])
    ∷ []
