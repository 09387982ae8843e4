-- ===== src/Ingest/Stream.antt =====
-- worker/ingest/hyperliquid.py: the WebSocket stream. The network is a list of connections, each a list
-- of what `recv` gives; the candles yielded are collected in order.
pub mod Fresh
pub mod Seeds
use hyperliquid_trading_aler.Prelude.{
  ℕ, ◌+◌, ◌*◌, min, String, Bool, true, false, not, ◌||◌, Option, none, some, Exn, value_error,
  attribute_error, http_error, Result, ok, err, ◌>>=◌, List, [], ◌∷◌, ◌++◌, leb, ltb, str_eq,
  if◌then◌else◌,
}
use hyperliquid_trading_aler.Prelude.Int.{ℤ, pos, leb_ℤ}
use hyperliquid_trading_aler.Numerics.{Numerics}
use hyperliquid_trading_aler.Db.Rows.{Dict, Value, null, text}
use hyperliquid_trading_aler.Ingest.Market.{
  value_at, is_none, Item, dict, other, Response, SnapshotRequest, Candle, truthy, or_value, to_ms,
  candle_from_dict, backfill,
}

-- `_last_candle_ts`: the last timestamp seen for each symbol.
abbrev pub LastSeen : Type 0
LastSeen = List (String × ℕ)

abbrev pub last_seen : String → LastSeen → Option ℕ
last_seen s [] = none
last_seen s ((k, t) ∷ d) = if str_eq k s then some t else last_seen s d

abbrev pub see : String → ℕ → LastSeen → LastSeen
see s t [] = (s, t) ∷ []
see s t ((k, u) ∷ d) = if str_eq k s then (k, t) ∷ d else (k, u) ∷ see s t d

-- A text frame: no JSON, JSON that is no object, or the values under "channel" and "data".
pub data Message : Type 0 where
  bad_json not_object : Message
  message : Value → Item → Message

-- What `recv` gives: a frame, nothing within the heartbeat timeout, or an exception.
pub data Received : Type 0 where
  frame : Message → Received
  timeout : Received
  broken : Exn → Received

abbrev pub is_channel : String → Value → Bool
is_channel s (text t) = str_eq t s
is_channel s _ = false

module _ (num : Numerics) (upper : String → String) where
  open num use {int_of}

  -- `v.upper()`: only a text has it.
  abbrev pub upper_text : Value → Result String
  upper_text (text s) = ok (upper s)
  upper_text _ = err attribute_error

  -- `(data.get("s") or data.get("coin") or data.get("symbol") or "").upper()`
  unfoldable pub coin_of : Dict Value → Result String
  coin_of d = upper_text (
      or_value num
        (or_value num (or_value num (value_at "s" d) (value_at "coin" d)) (value_at "symbol" d))
        (text ""))

  -- Whether the update is of a closed candle.
  unfoldable pub is_closed : Dict Value → ℤ → Result Bool
  is_closed d now_ms =
      let end_ms = or_value num (value_at "T" d) (value_at "endMs" d) in
      if truthy num (value_at "closed" d)
      then ok true
      else if is_none end_ms
      then ok false
      else int_of end_ms >>= λ e. ok (leb_ℤ e now_ms)

  -- `prev is not None and candle.timestamp <= prev`
  abbrev pub is_old : Option ℕ → ℕ → Bool
  is_old none t = false
  is_old (some prev) t = leb t prev

  -- The last lines of the loop: the duplicate test, and the candle that is yielded.
  unfoldable pub emit : String → Option (Candle num) → LastSeen → LastSeen × List (Candle num)
  emit coin none seen = (seen, [])
  emit coin (some candle) seen =
      if is_old (last_seen coin seen) candle.timestamp
      then (seen, [])
      else (see coin candle.timestamp seen, candle ∷ [])

  unfoldable pub handle_data : Dict Value → ℤ → LastSeen → Result (LastSeen × List (Candle num))
  handle_data d now_ms seen = do
    coin ← coin_of d
    if str_eq coin "" then ok (seen, []) else do
      closed ← is_closed d now_ms
      if not closed
          then ok (seen, [])
          else do candle ← candle_from_dict num upper coin d 900; ok (emit coin candle seen)

  -- `if not isinstance(data, dict): continue`
  unfoldable pub handle_payload : Item → ℤ → LastSeen → Result (LastSeen × List (Candle num))
  handle_payload other now_ms seen = ok (seen, [])
  handle_payload (dict d) now_ms seen = handle_data d now_ms seen

  unfoldable pub handle_message : Message → ℤ → LastSeen → Result (LastSeen × List (Candle num))
  handle_message bad_json now_ms seen = ok (seen, [])
  handle_message not_object now_ms seen = ok (seen, [])
  handle_message (message channel payload) now_ms seen =
      if is_channel "subscriptionResponse" channel
        || (is_channel "pong" channel || is_channel "error" channel)
      then ok (seen, [])
      else if not (is_channel "candle" channel)
      then ok (seen, [])
      else handle_payload payload now_ms seen

  -- How the inner loop ended: by the heartbeat timeout, or by an exception.
  pub data Ended : Type 0 where
    silent : Ended
    raised : Exn → Ended

  -- What a connection leaves: the last timestamps, the candles yielded, and how it ended.
  pub record Session : Type 0 where
    pub seen : LastSeen
    pub yielded : List (Candle num)
    pub ended : Ended

  abbrev pub yield_first : List (Candle num) → Session → Session
  yield_first cs s = record s { yielded = cs ++ s.yielded }

  -- What follows a frame: the rest of the loop, or the exception that ends it.
  unfoldable pub proceed :
      Result (LastSeen × List (Candle num)) → (LastSeen → Session) → LastSeen → Session
  proceed (err e) rest seen = record { seen = seen; yielded = []; ended = raised e }
  proceed (ok (seen', cs)) rest seen = yield_first cs (rest seen')

  -- The inner `while True`. `clock` gives the time in milliseconds at each frame; a list that ends is
  -- an observation that ends.
  unfoldable pub receive : List Received → (ℕ → ℤ) → ℕ → LastSeen → Session
  receive [] clock t seen = record { seen = seen; yielded = []; ended = silent }
  receive (timeout ∷ rest) clock t seen = record { seen = seen; yielded = []; ended = silent }
  receive (broken e ∷ rest) clock t seen = record { seen = seen; yielded = []; ended = raised e }
  receive (frame m ∷ rest) clock t seen =
      proceed (handle_message m (clock t) seen) (receive rest clock (t + 1)) seen

  module _ (server : SnapshotRequest → Response) where
    -- `for c in missed: self._last_candle_ts[c.symbol] = c.timestamp; yield c`
    unfoldable pub see_all : List (Candle num) → LastSeen → LastSeen
    see_all [] seen = seen
    see_all (c ∷ rest) seen = see_all rest (see c.symbol c.timestamp seen)

    unfoldable pub missed_candles : ℕ → String → LastSeen → List (Candle num)
    missed_candles now coin seen = elim (last_seen (upper coin) seen) [
      | none ↦ []
      | some last ↦ backfill num upper server now coin last "15m"
    ]

    -- The backfill of every configured symbol after a connect.
    unfoldable pub backfill_all : ℕ → List String → LastSeen → LastSeen × List (Candle num)
    backfill_all now [] seen = (seen, [])
    backfill_all now (coin ∷ coins) seen =
        let missed = missed_candles now coin seen in
        let (seen', cs) = backfill_all now coins (see_all missed seen) in (seen', missed ++ cs)

    -- One connection: the backfill, then the frames.
    unfoldable pub connection : ℕ → List String → List Received → (ℕ → ℤ) → LastSeen → Session
    connection now symbols frames clock seen =
        let (seen', missed) = backfill_all now symbols seen in
        yield_first missed (receive frames clock 0 seen')

  -- The wait before the next connect, in seconds, and the backoff after it.
  unfoldable pub next_wait : Ended → ℕ → ℕ × ℕ
  next_wait silent backoff = (0, backoff)
  next_wait (raised e) backoff = (min backoff 60, min (backoff * 2) 60)

-- `seed_last_seen`
unfoldable pub seed_last_seen : (String → String) → List (String × ℕ) → LastSeen → LastSeen
seed_last_seen upper [] seen = seen
seed_last_seen upper ((s, t) ∷ cursors) seen = seed_last_seen upper cursors (see (upper s) t seen)
