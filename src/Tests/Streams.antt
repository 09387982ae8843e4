-- ===== src/Tests/Streams.antt =====
-- Examples of the two stream modes.
use hyperliquid_trading_aler.Config.{symbol_list, WorkerSettings}
use hyperliquid_trading_aler.Prelude.{
  ℕ, ◌≡◌, refl, String, Bool, Exn, attribute_error, type_error, Result, ok, err, List, [], ◌∷◌,
}
use hyperliquid_trading_aler.Prelude.Int.{pos, ltb_ℤ}
use hyperliquid_trading_aler.Numerics.Naturals.{naturals}
use hyperliquid_trading_aler.Db.Rows.{Value, Dict, text, integer}
use hyperliquid_trading_aler.Ingest.Market.{dict}
use hyperliquid_trading_aler.Ingest.Stream.{timeout, frame, message, last_seen}
use hyperliquid_trading_aler.Ingest.Stream.Seeds.{cursor_time}
use hyperliquid_trading_aler.Ingest.Stream.Fresh.{seen_after}
use hyperliquid_trading_aler.Ingest.Reconnect.{Attempt, subscribed}
use hyperliquid_trading_aler.Ingest.Reconnect.Order.{IsOrdered}
use hyperliquid_trading_aler.Ingest.Client.{Feed, new_client, seeded, stream, stream-IsOrdered}
use hyperliquid_trading_aler.System.Resume.Runs.{runs, seeds, runs-IsOrdered}
use hyperliquid_trading_aler.System.Reach.{empty}
use hyperliquid_trading_aler.Db.{World}
use hyperliquid_trading_aler.Tests.Fixtures.{cfg, env, world_of}
use hyperliquid_trading_aler.Tests.Candles.{upper, update_of, answering, frames}

-- Python's `<` on two integers.
abbrev less : Value → Value → Result Bool
less (integer a) (integer b) = ok (ltb_ℤ a b)
less _ _ = err type_error

abbrev connected : Attempt
connected = subscribed 1699998500000000 (timeout ∷ []) (λ t. pos 1699999000000)

abbrev errors : List Exn
errors = attribute_error ∷ attribute_error ∷ []

abbrev feed : Feed
feed = record {
  attempts = subscribed 1699998500000000 frames (λ t. pos 1699999000000) ∷ [];
  backfills = answering (dict (update_of 100) ∷ []);
  rounds = 1;
  answers = λ t. answering (dict (update_of 100) ∷ []);
  clock = λ t. 1699998500000000;
}

stream-IsOrdered_example :
    let cursors : List (String × ℕ) = ("BTC", 1699997200000000) ∷ [] in
    let client = seeded upper cursors (new_client upper upper cfg) in
    let (seen', cs) = stream naturals upper less client feed in
    ((s : String) → last_seen s client.last_candle_ts ≡ cursor_time upper s cursors)
    × IsOrdered naturals upper client.last_candle_ts cs
    × (seen' ≡ seen_after naturals upper cs client.last_candle_ts)
stream-IsOrdered_example =
    stream-IsOrdered naturals upper less upper cfg (("BTC", 1699997200000000) ∷ []) feed (λ s. refl)

abbrev spaced : WorkerSettings
spaced = record cfg { symbols = " btc, eth ,," }

-- Spaces and empty parts are dropped.
symbols_parsed : symbol_list upper spaced ≡ "btc" ∷ "eth" ∷ []
unfolding symbol_list
symbols_parsed = refl

abbrev new_world : World
new_world = world_of empty

-- A candle of the next quarter of an hour.
abbrev next_update : Dict Value
next_update =
    ("s", text "BTC")
    ∷ ("t", integer (pos 1699999000000))
    ∷ ("T", integer (pos 1699999900000))
    ∷ ("o", integer (pos 151))
    ∷ ("h", integer (pos 152))
    ∷ ("l", integer (pos 150))
    ∷ ("c", integer (pos 152))
    ∷ ("v", integer (pos 2))
    ∷ []

abbrev next_feed : Feed
next_feed = record feed {
  attempts =
      subscribed 1699999500000000
        (frame (message (text "candle") (dict (update_of 150)))
          ∷ frame (message (text "candle") (dict next_update))
          ∷ [])
        (λ t. pos 1699999950000)
      ∷ [];
}

-- Two runs from an empty database, the first stopped after one candle. The second is sent that
-- candle again, and the next one.
runs-IsOrdered_example :
    IsOrdered naturals upper
      (seeds env naturals cfg upper less new_world)
      (runs env naturals cfg upper less ((1, feed) ∷ (5, next_feed) ∷ []) new_world)
runs-IsOrdered_example =
    runs-IsOrdered env naturals cfg upper less (λ s. refl) ((1, feed) ∷ (5, next_feed) ∷ [])
      new_world (record { durable = refl; alerts = tt; candles = tt })
      (record { numbered = record { keyed = tt; below = tt }; single = tt; uppers = tt })
