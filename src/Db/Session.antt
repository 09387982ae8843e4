-- ===== src/Db/Session.antt =====
-- The session of one request (db/base.py, and api/dependencies.py, which hands it on to the routes).
use hyperliquid_trading_aler.Db.{M, pure, raise, except, commit, rollback, ◌>>=◌, ◌>>◌}

-- `get_db_session` round the route that uses the session: a commit after it, and a rollback if
-- either raises. Its `close` changes nothing after these.
unfoldable pub get_db_session {ℓ} : {A : Type ℓ} → M A → M A
get_db_session route = except (do a ← route; commit; pure a) (λ e. rollback >> raise e)
