-- ===== src/Ingest/Reconnect.antt =====
-- worker/ingest/hyperliquid.py: the outer loop of the WebSocket stream, on the connections that the
-- network gives, and the choice of the mode.
pub mod Waits
pub mod Symbols
pub mod Order
pub mod Unfinished
use hyperliquid_trading_aler.Prelude.{
  ℕ, ◌*◌, min, String, Exn, List, [], ◌∷◌, ◌++◌, str_eq, if◌then◌else◌,
}
use hyperliquid_trading_aler.Prelude.Int.{ℤ}
use hyperliquid_trading_aler.Numerics.{Numerics}
use hyperliquid_trading_aler.Ingest.Market.{Response, SnapshotRequest, Candle}
use hyperliquid_trading_aler.Ingest.Stream.{
  LastSeen, Received, Ended, raised, Session, connection, next_wait,
}

-- `websockets.connect` raises; or it connects and a subscription cannot be sent; or the symbols are
-- subscribed, and then there are a reading of the clock for the backfills, what `recv` gives, and the
-- time in milliseconds at each frame.
pub data Attempt : Type 0 where
  refused unsubscribed : Exn → Attempt
  subscribed : ℕ → List Received → (ℕ → ℤ) → Attempt

module _ (num : Numerics) (upper : String → String) where
  -- What the stream has done: the last timestamps, the candles yielded, and the seconds slept before
  -- each further attempt.
  pub record Streamed : Type 0 where
    pub seen : LastSeen
    pub yielded : List (Candle num)
    pub waits : List ℕ

  abbrev pub after_session : Session num upper → ℕ → Streamed → Streamed
  after_session s wait later = record {
    seen = later.seen;
    yielded = s.yielded ++ later.yielded;
    waits = wait ∷ later.waits;
  }

  module _ (server : SnapshotRequest → Response) (symbols : List String) where
    -- One pass of `while True` up to the sleep, and the backoff that its `except` clause starts
    -- from: a connection that is made resets it.
    unfoldable pub attempt_session : Attempt → LastSeen → Session num upper
    attempt_session (refused e) seen = record { seen = seen; yielded = []; ended = raised e }
    attempt_session (unsubscribed e) seen = record { seen = seen; yielded = []; ended = raised e }
    attempt_session (subscribed now frames clock) seen =
        connection num upper server now symbols frames clock seen

    unfoldable pub backoff_of : Attempt → ℕ → ℕ
    backoff_of (refused e) backoff = backoff
    backoff_of _ backoff = 1

    unfoldable pub attempts_loop : List Attempt → ℕ → LastSeen → Streamed
    attempts_loop [] backoff seen = record { seen = seen; yielded = []; waits = [] }
    attempts_loop (a ∷ rest) backoff seen =
        let s = attempt_session a seen in
        let (wait, backoff') = next_wait num upper s.ended (backoff_of a backoff) in
        after_session s wait (attempts_loop rest backoff' s.seen)

    -- `_stream_ws`
    unfoldable pub stream_ws : List Attempt → LastSeen → Streamed
    stream_ws attempts seen = attempts_loop attempts 1 seen
