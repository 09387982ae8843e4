-- ===== src/Schema/Migrations/Later.antt =====
-- db/migrations/versions/: the revisions 002, 003 and 004.
use hyperliquid_trading_aler.Prelude.{some, [], ◌∷◌, none}
use hyperliquid_trading_aler.Schema.{
  uuid, varchar, text, integer, boolean, datetime, create_table, drop_table, key, expression,
  create_index, drop_index, add_value_if_missing, Revision,
}
use hyperliquid_trading_aler.Schema.Migrations.Initial.{primary, required, optional, defaulted}

unfoldable pub add_alert_delivery_attempts : Revision
add_alert_delivery_attempts = record {
  revision = "002_add_alert_delivery_attempts";
  down_revision = some "001_initial";
  upgrade =
      create_table (record {
        name = "alert_delivery_attempts";
        columns =
            primary "id" uuid
            ∷ required "alert_id" uuid
            ∷ required "attempt_no" integer
            ∷ required "status" varchar
            ∷ optional "response_code" integer
            ∷ optional "latency_ms" integer
            ∷ optional "error" text
            ∷ required "created_at" datetime
            ∷ [];
        foreign_keys =
            record { column = "alert_id"; target = "alerts.id"; ondelete = some "CASCADE" } ∷ [];
        uniques = [];
      })
      ∷ create_index "idx_alert_delivery_attempts_alert_created" "alert_delivery_attempts"
          (key "alert_id" ∷ expression "created_at DESC" ∷ []) none
      ∷ [];
  downgrade =
      drop_index "idx_alert_delivery_attempts_alert_created" "alert_delivery_attempts"
      ∷ drop_table "alert_delivery_attempts"
      ∷ [];
}

unfoldable pub add_api_keys : Revision
add_api_keys = record {
  revision = "003_add_api_keys";
  down_revision = some "002_add_alert_delivery_attempts";
  upgrade =
      create_table (record {
        name = "api_keys";
        columns =
            primary "id" uuid
            ∷ required "name" varchar
            ∷ required "key_hash" varchar
            ∷ defaulted "requests_per_minute" integer "60"
            ∷ defaulted "is_active" boolean "true"
            ∷ required "created_at" datetime
            ∷ optional "last_used_at" datetime
            ∷ [];
        foreign_keys = [];
        uniques = record { name = "uq_api_keys_key_hash"; columns = "key_hash" ∷ [] } ∷ [];
      })
      ∷ create_index "idx_api_keys_key_hash" "api_keys" (key "key_hash" ∷ []) none
      ∷ [];
  downgrade = drop_index "idx_api_keys_key_hash" "api_keys" ∷ drop_table "api_keys" ∷ [];
}

-- Its downgrade leaves the values in place.
unfoldable pub extend_rule_type_enum : Revision
extend_rule_type_enum = record {
  revision = "004_extend_rule_type_enum";
  down_revision = some "003_add_api_keys";
  upgrade =
      add_value_if_missing "rule_type_enum" "rsi"
      ∷ add_value_if_missing "rule_type_enum" "bollinger_bands"
      ∷ [];
  downgrade = [];
}
