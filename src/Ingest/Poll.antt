-- ===== src/Ingest/Poll.antt =====
-- worker/ingest/hyperliquid.py: the poll mode, and core/time.py's `now_ms`. The clock and the server are
-- read once for each call of `fetch_latest_candle`, which the calls are numbered for.
pub mod Fresh
use hyperliquid_trading_aler.Prelude.{
  ℕ, suc, zero, ◌+◌, ◌*◌, String, Bool, true, false, not, Option, none, some, attribute_error,
  Result, ok, err, ◌>>=◌, List, [], ◌∷◌, ◌++◌, ltb, ◌==◌, last?, if◌then◌else◌, length,
}
use hyperliquid_trading_aler.Prelude.Int.{ℤ, pos, ◌-ℤ◌}
use hyperliquid_trading_aler.Numerics.{Numerics, lit}
use hyperliquid_trading_aler.Db.Rows.{Dict, Value, integer}
use hyperliquid_trading_aler.Ingest.Market.{
  Item, dict, other, Response, failure, reply, SnapshotRequest, Candle, or_value, get_timestamp_ms,
  candle_from_dict, body_items,
}
use hyperliquid_trading_aler.Ingest.Stream.{LastSeen, last_seen, see}

module _ (num : Numerics) (upper : String → String) where
  open num use {mul, timestamp, truncate}

  -- `now` is the reading of the clock.
  unfoldable pub now_ms : ℕ → ℤ
  now_ms now = truncate (mul (timestamp now) (lit num 1000))

  -- `_get_timestamp_ms(x) or 0`: only a dict has `get`.
  unfoldable pub sort_key : Item → Result Value
  sort_key (dict d) = ok (or_value num (get_timestamp_ms num d) (integer (pos 0)))
  sort_key other = err attribute_error

  unfoldable pub keyed_items : List Item → Result (List (Value × Item))
  keyed_items [] = ok []
  keyed_items (x ∷ xs) = do k ← sort_key x; rest ← keyed_items xs; ok ((k, x) ∷ rest)

  -- Python's `<` on the keys raises for a number and a text.
  module _ (less : Value → Value → Result Bool) where
    -- `sorted(..., key=...)`: the keys first, then a stable sort by `<`.
    abbrev pub insert_item : Value × Item → List (Value × Item) → Result (List (Value × Item))
    insert_item x [] = ok (x ∷ [])
    insert_item x (y ∷ ys) =
        let rest = insert_item x ys in
        less y.0 x.0 >>= λ before. if before then (rest >>= λ r. ok (y ∷ r)) else ok (x ∷ y ∷ ys)

    abbrev pub sort_items : List (Value × Item) → Result (List (Value × Item))
    sort_items [] = ok []
    sort_items (x ∷ xs) = sort_items xs >>= insert_item x

    -- `_candle_from_dict` of the last item
    unfoldable pub parse_latest : String → Option (Value × Item) → Result (Option (Candle num))
    parse_latest coin none = ok none
    parse_latest coin (some (k, other)) = err attribute_error
    parse_latest coin (some (k, dict d)) = candle_from_dict num upper coin d 900

    -- The `try` block of `fetch_latest_candle`, on what the server answered. An empty reply gives
    -- None, as `parse_latest` of no item does.
    unfoldable pub read_latest : String → Response → Result (Option (Candle num))
    read_latest coin (failure e) = err e
    read_latest coin (reply status body) = if not (status == 200) then ok none else do
      found ← body_items num upper body
      pairs ← keyed_items found
      sorted ← sort_items pairs
      parse_latest coin (last? sorted)

    -- `except Exception: return None`
    abbrev pub or_none : Result (Option (Candle num)) → Option (Candle num)
    or_none (ok c) = c
    or_none (err _) = none

    -- The request of the last 200 candles of 15 minutes.
    unfoldable pub latest_request : String → ℤ → SnapshotRequest
    latest_request coin end_time_ms = record {
      coin = upper coin;
      interval = "15m";
      start_time = end_time_ms -ℤ pos (200 * (15 * 60 * 1000));
      end_time = end_time_ms;
    }

    unfoldable pub fetch_latest_candle :
        (SnapshotRequest → Response) → ℕ → String → Option (Candle num)
    fetch_latest_candle server now coin =
        or_none (read_latest coin (server (latest_request coin (now_ms now))))

    -- `last_seen is None or candle.timestamp > last_seen`
    abbrev pub is_newer : Option ℕ → ℕ → Bool
    is_newer none t = true
    is_newer (some prev) t = ltb prev t

    -- The two dicts, `last_candles` and `_last_candle_ts`, after a candle, and what is yielded.
    unfoldable pub poll_candle :
        String
        → Option (Candle num)
        → LastSeen × LastSeen
        → (LastSeen × LastSeen) × List (Candle num)
    poll_candle coin none seen = (seen, [])
    poll_candle coin (some candle) (last_candles, last_candle_ts) =
        if is_newer (last_seen coin last_candles) candle.timestamp
        then (
          (see coin candle.timestamp last_candles, see coin candle.timestamp last_candle_ts),
          candle ∷ [],
        )
        else ((last_candles, last_candle_ts), [])

    module _ (server : ℕ → SnapshotRequest → Response) (clock : ℕ → ℕ) where
      -- `for coin in self.symbols`, with the number of the next call.
      unfoldable pub poll_round :
          List String → ℕ → LastSeen × LastSeen → (LastSeen × LastSeen) × List (Candle num)
      poll_round [] t seen = (seen, [])
      poll_round (coin ∷ coins) t seen =
          let (seen', cs) = poll_candle coin (fetch_latest_candle (server t) (clock t) coin) seen in
          let (seen'', later) = poll_round coins (t + 1) seen' in (seen'', cs ++ later)

      -- The first `n` rounds of `while True`, `calls` calls after the start.
      unfoldable pub poll_rounds :
          ℕ → List String → ℕ → LastSeen × LastSeen → (LastSeen × LastSeen) × List (Candle num)
      poll_rounds zero symbols calls seen = (seen, [])
      poll_rounds (suc n) symbols calls seen =
          let (seen', cs) = poll_round symbols calls seen in
          let (seen'', later) = poll_rounds n symbols (calls + length symbols) seen' in
          (seen'', cs ++ later)

      -- `_stream_poll`: `last_candles` starts as a copy of `_last_candle_ts`.
      unfoldable pub stream_poll : ℕ → List String → LastSeen → LastSeen × List (Candle num)
      stream_poll rounds symbols seen =
          let ((last_candles, last_candle_ts), cs) = poll_rounds rounds symbols 0 (seen, seen) in
          (last_candle_ts, cs)
