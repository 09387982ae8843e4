-- ===== src/Schema/Migrations.antt =====
-- db/migrations/versions/: the revisions, in the order in which Alembic applies them.
pub mod Initial
pub mod Later
use hyperliquid_trading_aler.Prelude.{
  ◌≡◌, refl, String, Option, none, some, Result, ok, ◌>>=◌, >>=-eq-ok, List, [], ◌∷◌, ◌++◌, map,
}
use hyperliquid_trading_aler.Schema.{Operation, Revision, Server}
use Initial.{initial}
use Later.{add_alert_delivery_attempts, add_api_keys, extend_rule_type_enum}

unfoldable pub revisions : List Revision
revisions = initial ∷ add_alert_delivery_attempts ∷ add_api_keys ∷ extend_rule_type_enum ∷ []

-- All that `alembic upgrade head` runs on a new database.
unfoldable pub all_upgrades : List Revision → List Operation
all_upgrades [] = []
all_upgrades (r ∷ rest) = r.upgrade ++ all_upgrades rest

-- All that `alembic downgrade base` runs.
unfoldable pub all_downgrades : List Revision → List Operation
all_downgrades [] = []
all_downgrades (r ∷ rest) = all_downgrades rest ++ r.downgrade

module _ (server : Server) where
  open server use {Catalogue, run}

  -- The operations one after the other; the first that raises ends the migration.
  abbrev pub run_all : List Operation → Catalogue → Result Catalogue
  run_all [] s = ok s
  run_all (op ∷ rest) s = run op s >>= λ s'. run_all rest s'
