-- ===== src/Ingest/Client.antt =====
-- worker/ingest/hyperliquid.py: the client with its two modes, from its construction to the candles that
-- the worker reads.
use hyperliquid_trading_aler.Config.Symbols.{symbol_list-upper}
use hyperliquid_trading_aler.Prelude.{
  ℕ, ◌≡◌, Bool, Bool-cases, inl, inr, String, Result, List, [], str_eq, if◌then◌else◌,
}
use hyperliquid_trading_aler.Numerics.{Numerics}
use hyperliquid_trading_aler.Config.{WorkerSettings, symbol_list}
use hyperliquid_trading_aler.Db.Rows.{Value}
use hyperliquid_trading_aler.Ingest.Market.{Response, SnapshotRequest, Candle}
use hyperliquid_trading_aler.Ingest.Stream.{LastSeen, last_seen, seed_last_seen}
use hyperliquid_trading_aler.Ingest.Stream.Seeds.{cursor_time, seed-cursor_time}
use hyperliquid_trading_aler.Ingest.Stream.Fresh.{seen_after}
use hyperliquid_trading_aler.Ingest.Poll.{stream_poll}
use hyperliquid_trading_aler.Ingest.Poll.Fresh.{stream_poll-IsFresh}
use hyperliquid_trading_aler.Ingest.Reconnect.{Attempt, stream_ws}
use hyperliquid_trading_aler.Ingest.Reconnect.Order.{
  IsOrdered, IsFresh-IsOrdered, stream_ws-IsOrdered,
}

-- `HyperliquidClient`
pub record Client : Type 0 where
  pub symbols : List String
  pub mode : String
  pub last_candle_ts : LastSeen

-- `HyperliquidClient()`, with Python's `str.upper` and `str.lower`
unfoldable pub new_client : (String → String) → (String → String) → WorkerSettings → Client
new_client upper lower cfg = record {
  symbols = symbol_list upper cfg;
  mode = lower cfg.ingest_mode;
  last_candle_ts = [];
}

-- `client.seed_last_seen(cursors)`
unfoldable pub seeded : (String → String) → List (String × ℕ) → Client → Client
seeded upper cursors client = record client {
  last_candle_ts = seed_last_seen upper cursors client.last_candle_ts;
}

-- What the world outside gives to a stream: the connections, and for the poll mode the number of
-- rounds, the answers and the clock at each call.
pub record Feed : Type 0 where
  pub attempts : List Attempt
  pub backfills : SnapshotRequest → Response
  pub rounds : ℕ
  pub answers : ℕ → SnapshotRequest → Response
  pub clock : ℕ → ℕ

module _ (num : Numerics) (upper : String → String) (less : Value → Value → Result Bool) where
  -- `stream`: the last timestamps and the candles yielded.
  unfoldable pub stream : Client → Feed → LastSeen × List (Candle num)
  stream client feed =
      if str_eq client.mode "ws"
      then (let out =
            stream_ws num upper feed.backfills client.symbols feed.attempts client.last_candle_ts in
          (out.seen, out.yielded))
      else stream_poll num upper less feed.answers feed.clock feed.rounds client.symbols
          client.last_candle_ts

  stream-kept :
      (lower : String → String) (cfg : WorkerSettings) (cursors : List (String × ℕ)) (feed : Feed)
      → ((s : String) → upper (upper s) ≡ upper s)
      → let client = seeded upper cursors (new_client upper lower cfg) in
        let (seen, cs) = stream client feed in
        IsOrdered num upper client.last_candle_ts cs
        × (seen ≡ seen_after num upper cs client.last_candle_ts)
  unfolding stream seeded new_client
  stream-kept lower cfg cursors feed idem =
      let seeds = seed_last_seen upper cursors [] in
      elim (Bool-cases (str_eq (lower cfg.ingest_mode) "ws")) [
        | inl ws ↦ rw ws (
            stream_ws-IsOrdered num upper idem feed.backfills (symbol_list upper cfg) feed.attempts
              seeds)
        | inr poll ↦
            (let (fresh, e) =
                stream_poll-IsFresh num upper less feed.answers feed.clock feed.rounds
                  (symbol_list upper cfg) seeds (symbol_list-upper upper idem cfg) in
              rw poll (IsFresh-IsOrdered num upper _ seeds fresh, e))
      ]

  -- In either mode, a client that was seeded with cursors has seen, for each symbol, the time of its
  -- last cursor and nothing else. From there it yields candles with their symbols in upper case,
  -- none older than what was seen of its symbol or than a candle of its symbol yielded before, and
  -- keeps the timestamps of the candles yielded, whatever the exchange and the network do, given
  -- that a text in upper case is its own upper case.
  pub stream-IsOrdered :
      (lower : String → String) (cfg : WorkerSettings) (cursors : List (String × ℕ)) (feed : Feed)
      → ((s : String) → upper (upper s) ≡ upper s)
      → let client = seeded upper cursors (new_client upper lower cfg) in
        let (seen, cs) = stream client feed in
        ((s : String) → last_seen s client.last_candle_ts ≡ cursor_time upper s cursors)
        × IsOrdered num upper client.last_candle_ts cs
        × (seen ≡ seen_after num upper cs client.last_candle_ts)
  unfolding seeded new_client
  stream-IsOrdered lower cfg cursors feed idem =
      let (ordered, kept) = stream-kept lower cfg cursors feed idem in
      ((λ s. seed-cursor_time upper s cursors), ordered, kept)
