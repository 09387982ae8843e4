-- ===== src/System/Resume/Runs.antt =====
-- The runs of a worker that is stopped and started again (worker/main.py): each run begins with the cursors
-- that the runs before left.
use hyperliquid_trading_aler.Prelude.{
  ℕ, suc, zero, ◌≡◌, sym, ap, ◌∙◌, String, Bool, false, some, Result, List, [], ◌∷◌, ◌++◌, All,
  take, subst, if◌then◌else◌, str_eq,
}
use hyperliquid_trading_aler.Config.{WorkerSettings}
use hyperliquid_trading_aler.Numerics.{Numerics}
use hyperliquid_trading_aler.Db.{Env, World, Database}
use hyperliquid_trading_aler.Db.Rows.{Value}
use hyperliquid_trading_aler.Ingest.Market.{Candle}
use hyperliquid_trading_aler.Ingest.Cursor.{get_all_cursors}
use hyperliquid_trading_aler.Ingest.Client.{Feed, new_client, seeded, stream, stream-IsOrdered}
use hyperliquid_trading_aler.Ingest.Stream.{LastSeen, last_seen, seed_last_seen}
use hyperliquid_trading_aler.Ingest.Reconnect.Order.{IsOrdered, IsOrdered-append, is_behind}
use hyperliquid_trading_aler.Worker.{main_loop, load_active_rules}
use hyperliquid_trading_aler.Worker.Invariant.{IsConsistent}
use hyperliquid_trading_aler.Worker.Cursors.{IsPlaced, memory}
use hyperliquid_trading_aler.System.Resume.{seed-remembered, process_stream-memory}
use hyperliquid_trading_aler.Ingest.Stream.Seeds.{or_else-none, last_seen-see_if}

module _ (num : Numerics) (upper : String → String) where
  IsOrdered-take :
      (k : ℕ) (cs : List (Candle num)) (seen : LastSeen)
      → IsOrdered num upper seen cs
      → IsOrdered num upper seen (take k cs)
  IsOrdered-take zero cs seen f = tt
  IsOrdered-take (suc k) [] seen f = tt
  IsOrdered-take (suc k) (c ∷ cs) seen f = (f.0, f.1, IsOrdered-take k cs _ f.2)

  IsOrdered-named :
      (cs : List (Candle num)) (seen : LastSeen)
      → IsOrdered num upper seen cs
      → All (λ (c : Candle num). upper c.symbol ≡ c.symbol) cs
  IsOrdered-named [] seen f = tt
  IsOrdered-named (c ∷ cs) seen f = (f.1, IsOrdered-named cs _ f.2)

  -- Only what the dict has for each symbol counts.
  IsOrdered-agree :
      (cs : List (Candle num)) (seen seen' : LastSeen)
      → ((s : String) → last_seen s seen ≡ last_seen s seen')
      → IsOrdered num upper seen cs
      → IsOrdered num upper seen' cs
  IsOrdered-agree [] seen seen' agree f = tt
  IsOrdered-agree (c ∷ cs) seen seen' agree f = (
    subst (λ o. is_behind num upper o c.timestamp ≡ false) (agree c.symbol) f.0,
    f.1,
    IsOrdered-agree cs _ _
        (λ s.
          last_seen-see_if s c.symbol c.timestamp seen
          ∙ ap (λ o. if str_eq c.symbol s then some c.timestamp else o) (agree s)
          ∙ sym (last_seen-see_if s c.symbol c.timestamp seen'))
        f.2,
  )

module _ (env : Env) (num : Numerics) (cfg : WorkerSettings) (lower : String → String)
    (less : Value → Value → Result Bool) where
  -- The candles that `main_loop` reads: a new client takes the cursors of the database, then streams.
  unfoldable pub stream_from : Database → Feed → List (Candle num)
  stream_from db feed =
      let client = new_client env.upper lower cfg in
      (stream num env.upper less (seeded env.upper (get_all_cursors env cfg db) client) feed).1

  -- The candles processed by runs of the worker, one after the other, where each is stopped after
  -- a number of candles.
  unfoldable pub runs : List (ℕ × Feed) → World → List (Candle num)
  runs [] w = []
  runs ((k, feed) ∷ rest) w =
      let cs = take k (stream_from w.db feed) in cs ++ runs rest (main_loop env num cfg cs w).1

  -- What the cursors of a database give to a new client.
  abbrev pub seeds : World → LastSeen
  seeds w = seed_last_seen env.upper (get_all_cursors env cfg w.db) []

  module _ (idem : (s : String) → env.upper (env.upper s) ≡ env.upper s) where
    seeds-memory : (s : String) (w : World) → last_seen s (seeds w) ≡ memory env cfg idem s w
    unfolding get_all_cursors
    seeds-memory s w =
        seed-remembered env.upper cfg.worker_id s w.db.cursors []
        ∙ or_else-none (memory env cfg idem s w)

    -- A worker that is started again and again on the cursors of its database, each run stopped
    -- after any number of candles, never processes a candle that is older than a cursor it began
    -- with, or than a candle of the symbol that any run has processed before, in either mode and
    -- whatever the exchange and the network do in each run, and every symbol processed is in upper
    -- case, given that a text in upper case is its own upper case, that the first run begins in a
    -- consistent world, that cursor identifiers are distinct, and that the worker has one cursor
    -- for each symbol, in upper case.
    pub runs-IsOrdered :
        (rest : List (ℕ × Feed)) (w : World)
        → IsConsistent w
        → IsPlaced env cfg w
        → IsOrdered num env.upper (seeds w) (runs rest w)
    unfolding runs stream_from main_loop seeded new_client
    runs-IsOrdered [] w kept placed = tt
    runs-IsOrdered ((k, feed) ∷ rest) w kept placed =
        let cs = take k (stream_from w.db feed) in
        let ordered : IsOrdered num env.upper (seeds w) cs =
          IsOrdered-take num env.upper k _ (seeds w)
            (stream-IsOrdered num env.upper less lower cfg (get_all_cursors env cfg w.db) feed
              idem).1 in
        let w' = (main_loop env num cfg cs w).1 in
        let (kept', placed', agree) =
          process_stream-memory env num cfg idem (load_active_rules env num w.db) cs (seeds w) w
            (IsOrdered-named num env.upper cs (seeds w) ordered) kept placed
            (λ s. sym (seeds-memory s w)) in
        IsOrdered-append num env.upper cs (runs rest w') (seeds w) ordered (
          IsOrdered-agree num env.upper (runs rest w') (seeds w') _
            (λ s. seeds-memory s w' ∙ agree s) (runs-IsOrdered rest w' kept' placed'))
