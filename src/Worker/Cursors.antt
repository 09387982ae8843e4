-- ===== src/Worker/Cursors.antt =====
-- What the cursors of the database remember (worker/ingest/cursor.py), as the client reads them when the
-- worker starts (worker/ingest/hyperliquid.py).
mod Memory
unfoldable pub use Memory.*
use hyperliquid_trading_aler.Prelude.{
  ℕ, ◌+◌, ◌≡◌, refl, sym, subst, ap, ◌∙◌, String, Bool, true, false, ◌&&◌, Option, none, some, List,
  [], ◌∷◌, arith, find, str_eq, str_eq_refl, eq_iff, Bool-cases, Option-cases, inl, inr,
  if◌then◌else◌, ◌==◌, All,
}
use hyperliquid_trading_aler.Config.{WorkerSettings}
use hyperliquid_trading_aler.Db.{Env, World}
use hyperliquid_trading_aler.Db.Rows.{WorkerCursor}
use hyperliquid_trading_aler.Db.Table.{update, IsKeyed}
use hyperliquid_trading_aler.Db.Table.Numbered.{IsNumbered, IsNumbered-cons, update-IsNumbered}
use hyperliquid_trading_aler.Ingest.Cursor.{is_cursor_of, get_cursor, update_cursor}
use hyperliquid_trading_aler.Worker.Candles.{
  cursor_key, find-apart, is_cursor_of-parts, cursor-moves, cursor-opens, opened,
}

-- What the cursors of one worker have at every time: distinct identifiers that were drawn before, one
-- cursor for each symbol, and symbols in upper case.
pub record IsPlaced (env : Env) (cfg : WorkerSettings) (w : World) : Type 0 where
  pub numbered : IsNumbered cursor_key w.fresh w.db.cursors
  pub single : IsSingle env.upper cfg.worker_id w.db.cursors
  pub uppers : All (IsUpper env.upper cfg.worker_id) w.db.cursors

module _ (env : Env) (cfg : WorkerSettings)
    (idem : (s : String) → env.upper (env.upper s) ≡ env.upper s) where
  abbrev pub memory : String → World → Option ℕ
  memory s w = remembered env.upper cfg.worker_id s w.db.cursors

  opens-fresh :
      (symbol : String) (timestamp : ℕ) (w : World)
      → get_cursor env cfg symbol w.db ≡ none
      → (update_cursor env cfg symbol timestamp w).1.fresh ≡ w.fresh + 1
  unfolding update_cursor
  opens-fresh symbol timestamp w gone = ground arith

  moves-fresh :
      (symbol : String) (timestamp : ℕ) (w : World) (c : WorkerCursor)
      → get_cursor env cfg symbol w.db ≡ some c
      → (update_cursor env cfg symbol timestamp w).1.fresh ≡ w.fresh
  unfolding update_cursor
  moves-fresh symbol timestamp w c found = ground arith

  pub update_cursor-IsPlaced :
      (symbol : String) (timestamp : ℕ) (w : World)
      → IsPlaced env cfg w
      → IsPlaced env cfg (update_cursor env cfg symbol timestamp w).1
  unfolding get_cursor
  update_cursor-IsPlaced symbol timestamp w placed =
      let k = env.upper symbol in
      elim (Option-cases (get_cursor env cfg symbol w.db)) [
        | inl gone ↦
            (let after = cursor-opens env cfg symbol timestamp w gone in
              record {
                numbered =
                    rw (after, opens-fresh symbol timestamp w gone)
                      (IsNumbered-cons cursor_key w.fresh (w.fresh + 1)
                        (opened env cfg symbol timestamp w) w.db.cursors refl (omega arith)
                        placed.numbered);
                single = rw after (
                  (λ own.
                      find-remembered env.upper cfg.worker_id k w.db.cursors placed.uppers gone),
                  placed.single,
                );
                uppers = rw after (idem symbol, placed.uppers);
              })
        | inr (c, found) ↦
            (let after = cursor-moves env cfg symbol timestamp w c found in
              let (singles, uppers) =
                moved-IsSingle env.upper cfg.worker_id k timestamp (env.clock w.ticks) w.db.cursors
                  placed.numbered.keyed placed.single placed.uppers found in
              record {
                numbered =
                    rw (after, moves-fresh symbol timestamp w c found)
                      (update-IsNumbered cursor_key w.fresh _ w.db.cursors placed.numbered);
                single = rw after singles;
                uppers = rw after uppers;
              })
      ]

  pub update_cursor-memory :
      (s symbol : String) (timestamp : ℕ) (w : World)
      → IsPlaced env cfg w
      → memory s (update_cursor env cfg symbol timestamp w).1
        ≡ (if str_eq (env.upper symbol) s then some timestamp else memory s w)
  unfolding get_cursor
  update_cursor-memory s symbol timestamp w placed =
      let k = env.upper symbol in
      elim (Option-cases (get_cursor env cfg symbol w.db)) [
        | inl gone ↦
            ap (remembered env.upper cfg.worker_id s) (cursor-opens env cfg symbol timestamp w gone)
            ∙ front-remembered env.upper cfg.worker_id s k (opened env cfg symbol timestamp w)
                w.db.cursors
                (find-remembered env.upper cfg.worker_id k w.db.cursors placed.uppers gone)
                (str_eq_refl cfg.worker_id) (idem symbol)
        | inr (c, found) ↦
            ap (remembered env.upper cfg.worker_id s)
              (cursor-moves env cfg symbol timestamp w c found)
            ∙ moved-remembered env.upper cfg.worker_id s k timestamp (env.clock w.ticks)
                w.db.cursors placed.numbered.keyed placed.single placed.uppers found
      ]
