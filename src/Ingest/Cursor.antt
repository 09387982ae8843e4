-- ===== src/Ingest/Cursor.antt =====
-- worker/ingest/cursor.py: the cursor of each symbol.
use hyperliquid_trading_aler.Prelude.{
  ℕ, String, Bool, ◌&&◌, Option, none, some, List, ◌∷◌, find, select, map, str_eq,
}
use hyperliquid_trading_aler.Config.{WorkerSettings}
use hyperliquid_trading_aler.Db.{Env, Database, M, ◌>>=◌, ◌>>◌, gets, modify, commit, uuid4, utcnow}
use hyperliquid_trading_aler.Db.Rows.{WorkerCursor}
use hyperliquid_trading_aler.Db.Table.{update}

abbrev pub is_cursor_of : String → String → WorkerCursor → Bool
is_cursor_of worker_id symbol c = str_eq c.worker_id worker_id && str_eq c.symbol symbol

module _ (env : Env) (cfg : WorkerSettings) where
  unfoldable pub get_cursor : String → Database → Option WorkerCursor
  get_cursor symbol db = find (is_cursor_of cfg.worker_id (env.upper symbol)) db.cursors

  unfoldable pub update_cursor : String → ℕ → M (Unit {0})
  update_cursor symbol timestamp = do
    found ← gets (get_cursor symbol)
    elim found [
      | some cursor ↦ (do
        now ← utcnow env
        modify (λ db. record db {
          cursors =
              update (λ (c : WorkerCursor). c.id)
                (record cursor { last_processed_timestamp = timestamp; updated_at = now })
                db.cursors;
        }))
      | none ↦ (do
        k ← uuid4
        now ← utcnow env
        modify (λ db. record db {
          cursors =
              record {
                id = k;
                worker_id = cfg.worker_id;
                symbol = env.upper symbol;
                last_processed_timestamp = timestamp;
                updated_at = now;
              }
              ∷ db.cursors;
        }))
    ]
    commit

  -- The cursors of this worker, by symbol.
  unfoldable pub get_all_cursors : Database → List (String × ℕ)
  get_all_cursors db =
      map (λ (c : WorkerCursor). (c.symbol, c.last_processed_timestamp))
        (select (λ (c : WorkerCursor). str_eq c.worker_id cfg.worker_id) db.cursors)
