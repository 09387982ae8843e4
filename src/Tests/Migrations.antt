-- ===== src/Tests/Migrations.antt =====
-- Examples of the migrations.
use hyperliquid_trading_aler.Db.Url.{migration_url}
use hyperliquid_trading_aler.Db.Engine.{engine_options}
use hyperliquid_trading_aler.Prelude.{◌≡◌, refl, ok, [], ◌∷◌, map, find, str_eq, none, some}
use hyperliquid_trading_aler.Schema.Migrations.{run_all, all_upgrades, all_downgrades, revisions}
use hyperliquid_trading_aler.Schema.Migrations.Initial.{
  create_types, create_rules, create_alerts, create_candles, create_worker_cursors,
  create_constraints, create_indexes, create_relations, initial,
}
use hyperliquid_trading_aler.Schema.Migrations.Later.{add_alert_delivery_attempts, add_api_keys}
use hyperliquid_trading_aler.Schema.Models.{model_tables, model_enums}
use hyperliquid_trading_aler.Schema.Downgrade.{upgraded, downgrade-upgrade}
use hyperliquid_trading_aler.Schema.Drift.{
  View, view, cascading, tables_after, enums_after, is_named, schema_in_step,
}
use hyperliquid_trading_aler.Tests.Server.{Names, server, empty, server-Laws}

-- A new database after revision 003.
abbrev migrated : Names
migrated = record {
  tables =
      "api_keys" ∷ "alert_delivery_attempts" ∷ "worker_cursors" ∷ "candles" ∷ "alerts" ∷ "rules"
      ∷ [];
  constraints =
      ("uq_worker_cursor", "worker_cursors")
      ∷ ("uq_candle_symbol_time_interval", "candles")
      ∷ ("uq_alert_window", "alerts")
      ∷ [];
  indexes =
      ("idx_api_keys_key_hash", "api_keys")
      ∷ ("idx_alert_delivery_attempts_alert_created", "alert_delivery_attempts")
      ∷ ("idx_candles_symbol_timestamp", "candles")
      ∷ ("idx_rules_active_symbol", "rules")
      ∷ ("idx_alerts_triggered_at", "alerts")
      ∷ ("idx_alerts_delivery_status", "alerts")
      ∷ ("idx_alerts_rule_id", "alerts")
      ∷ [];
  types =
      ("delivery_status_enum", "pending" ∷ "delivered" ∷ "failed" ∷ [])
      ∷ ("rule_type_enum", "price_threshold" ∷ "percent_move" ∷ "candle_close" ∷ "macd_cross" ∷ [])
      ∷ [];
}

upgrade-migrated : run_all server (all_upgrades upgraded) empty ≡ ok migrated
unfolding all_upgrades initial create_types create_rules create_alerts create_candles
    create_worker_cursors create_constraints create_indexes create_relations
    add_alert_delivery_attempts add_api_keys
upgrade-migrated = refl

downgrade-upgrade_example : run_all server (all_downgrades upgraded) migrated ≡ ok empty
downgrade-upgrade_example =
    downgrade-upgrade server server-Laws empty migrated refl refl upgrade-migrated

schema_in_step_example :
    (find
        (λ (v : View). str_eq v.name "alerts")
        (map view (tables_after (all_upgrades revisions) []))
      ≡ find (λ (v : View). str_eq v.name "alerts") (map (λ t. view (cascading t)) model_tables))
    × (find (is_named "alerts") (enums_after (all_upgrades revisions) [])
        ≡ find (is_named "alerts") model_enums)
schema_in_step_example = schema_in_step "alerts"

sqlite_has_no_pool : (engine_options "sqlite+aiosqlite:///:memory:").pool_size ≡ none
unfolding engine_options
sqlite_has_no_pool = refl

driver_changed :
    migration_url (some "postgresql+asyncpg://u:p@h/db") ≡ "postgresql+psycopg2://u:p@h/db"
unfolding migration_url
driver_changed = refl

driver_added : migration_url (some "postgresql://u:p@h/db") ≡ "postgresql+psycopg2://u:p@h/db"
unfolding migration_url
driver_added = refl

other_scheme_kept : migration_url (some "sqlite:///db") ≡ "sqlite:///db"
unfolding migration_url
other_scheme_kept = refl
