-- ===== src/Tests/Candles.antt =====
-- Examples of the ingest and of the main loop.
use hyperliquid_trading_aler.Ingest.Reconnect.Unfinished.{backfilled_once, AreLater}
use hyperliquid_trading_aler.Prelude.{
  ℕ, ◌<◌, ◌≡◌, ◌⊎◌, refl, String, some, List, [], ◌∷◌, All, IsSorted, ok, arith, ◌++◌,
}
use hyperliquid_trading_aler.Prelude.Int.{pos}
use hyperliquid_trading_aler.Numerics.Naturals.{naturals}
use hyperliquid_trading_aler.Db.Rows.{CandleModel, WorkerCursor, Dict, Value, text, integer}
use hyperliquid_trading_aler.Ingest.Market.{
  Candle, Item, dict, Response, reply, items, SnapshotRequest, backfill,
}
use hyperliquid_trading_aler.Ingest.Market.Backfill.{backfill_newer, opened}
use hyperliquid_trading_aler.Ingest.Stream.{
  LastSeen, message, Received, frame, receive, backfill_all, connection,
}
use hyperliquid_trading_aler.Ingest.Stream.Fresh.{receive-IsFresh, IsFresh}
use hyperliquid_trading_aler.Worker.{save_candle, main_loop}
use hyperliquid_trading_aler.Worker.Invariant.{IsConsistent, Kept}
use hyperliquid_trading_aler.Ingest.Cursor.{update_cursor, get_cursor}
use hyperliquid_trading_aler.Worker.Candles.{cursor_reads_back, save_candle_once, IsKnown, IsRowOf}
use hyperliquid_trading_aler.Worker.Loop.{main_loop_safe}
use hyperliquid_trading_aler.Tests.Fixtures.{env, cfg, candle_at, db, world}

abbrev pub upper : String → String
upper s = s

-- A candle in the exchange's format, closing at 1699999000 seconds.
abbrev pub update_of : ℕ → Dict Value
update_of price =
    ("s", text "BTC")
    ∷ ("t", integer (pos 1699998100000))
    ∷ ("T", integer (pos 1699999000000))
    ∷ ("o", integer (pos price))
    ∷ ("h", integer (pos price))
    ∷ ("l", integer (pos price))
    ∷ ("c", integer (pos price))
    ∷ ("v", integer (pos 3))
    ∷ []

abbrev damaged : Dict Value
damaged =
    ("t", integer (pos 1699998100000))
    ∷ ("o", text "n/a")
    ∷ ("h", integer (pos 1))
    ∷ ("l", integer (pos 1))
    ∷ ("c", integer (pos 1))
    ∷ []

abbrev pub answering : List Item → SnapshotRequest → Response
answering found request = reply 200 (items found)

abbrev pub seen : LastSeen
seen = ("BTC", 1699997200000000) ∷ []

abbrev candle_of_update : ℕ → Candle naturals
candle_of_update price = record {
  symbol = "BTC";
  timestamp = 1699998100000000;
  open_ = price;
  high = price;
  low = price;
  close = price;
  volume = some 3;
  interval_seconds = 900;
}

backfill_newer_example :
    let cs =
      backfill naturals upper
        (answering (dict (update_of 100) ∷ []))
        1699998500000000
        "BTC"
        1699997200000000
        "15m" in
    All (λ c. 1699997200000000 < c.timestamp) cs × IsSorted (opened naturals upper) cs
backfill_newer_example =
    backfill_newer naturals upper (answering (dict (update_of 100) ∷ [])) 1699998500000000 "BTC"
      1699997200000000 "15m"

abbrev pub frames : List Received
frames = frame (message (text "candle") (dict (update_of 150))) ∷ []

receive-IsFresh_example :
    IsFresh naturals upper seen
      (receive naturals upper frames (λ t. pos 1699999000000) 0 seen).yielded
receive-IsFresh_example =
    receive-IsFresh naturals upper (λ s. refl) frames (λ t. pos 1699999000000) 0 seen

backfilled_once_example :
    let server = answering (dict (update_of 100) ∷ []) in
    let symbols : List String = "BTC" ∷ "ETH" ∷ [] in
    let missed = (backfill_all naturals upper server 1699998500000000 symbols seen).1 in
    (live : List (Candle naturals)) × ((connection naturals upper server 1699998500000000 symbols
        frames
        (λ t. pos 1699999000000)
        seen).yielded
      ≡ missed ++ live)
    × All (λ (c : Candle naturals). AreLater naturals upper c.symbol c.timestamp live) missed
backfilled_once_example =
    backfilled_once naturals upper (answering (dict (update_of 100) ∷ [])) 1699998500000000
      ("BTC" ∷ "ETH" ∷ []) frames (λ t. pos 1699999000000) seen (λ s. refl)

cursor_reads_back_example :
    let (result, w') = update_cursor env cfg "BTC" 1699999060000000 world in
    (c : WorkerCursor) × (get_cursor env cfg "BTC" w'.db ≡ some c)
    × (c.worker_id ≡ cfg.worker_id)
    × (c.symbol ≡ "BTC")
    × (c.last_processed_timestamp ≡ 1699999060000000)
    × (result ≡ ok tt)
    × (w'.committed ≡ w'.db)
cursor_reads_back_example = cursor_reads_back env cfg "BTC" 1699999060000000 world tt

world-IsConsistent : IsConsistent world
world-IsConsistent = record {
  durable = refl;
  alerts = ((refl, (ground arith, ground arith, refl, refl)), tt);
  candles = tt;
}

save_candle_once_example :
    let candle = candle_at 1699999060000000 150 in
    Kept tt (save_candle env naturals candle world)
    × (let w' = (save_candle env naturals candle world).1 in
        (IsKnown env naturals candle world db.candles × (w'.db ≡ db))
        ⊎ ((¬ IsKnown env naturals candle world db.candles)
            × ((row_ : CandleModel) × IsRowOf env naturals candle world row_
                × (w'.db ≡ record db { candles = row_ ∷ [] }))))
save_candle_once_example =
    save_candle_once env naturals (candle_at 1699999060000000 150) world world-IsConsistent

abbrev two_candles : List (Candle naturals)
two_candles = candle_at 1699999060000000 150 ∷ candle_at 1699999060000000 150 ∷ []

main_loop_safe_example : Kept tt (main_loop env naturals cfg two_candles world)
main_loop_safe_example = main_loop_safe env naturals cfg two_candles world world-IsConsistent
