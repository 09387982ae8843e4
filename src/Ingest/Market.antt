-- ===== src/Ingest/Market.antt =====
-- worker/ingest/hyperliquid.py: the candle, its parser and the REST helpers, with the conversions of
-- core/time.py.
pub mod Backfill
use hyperliquid_trading_aler.Prelude.{
  ℕ, String, Bool, true, false, not, Option, none, some, Exn, value_error, type_error,
  attribute_error, Result, ok, err, ◌>>=◌, List, [], ◌∷◌, ltb, ◌==◌, select, sort_by, str_eq,
  if◌then◌else◌, ◌||◌,
}
use hyperliquid_trading_aler.Prelude.Int.{ℤ, pos, negsuc}
use hyperliquid_trading_aler.Numerics.{Numerics, lit}
use hyperliquid_trading_aler.Db.Rows.{
  Dict, Value, null, boolean, integer, real, text, array, object,
}

-- `data.get(k)`: a missing key and a JSON null are both None.
abbrev pub value_at : String → Dict Value → Value
value_at k [] = null
value_at k ((j, v) ∷ d) = if str_eq j k then v else value_at k d

abbrev pub is_none : Value → Bool
is_none null = true
is_none _ = false

-- An item of the REST reply, and a value under "data": a dict, or anything else.
pub data Item : Type 0 where
  dict : Dict Value → Item
  other : Item

-- A decoded REST body: a list, a dict with a list under "data" or with no such key, a dict with
-- something else there, or neither.
pub data Body : Type 0 where
  items : List Item → Body
  wrapped : Option (List Item) → Body
  unusable : Body
  scalar : Body

-- A REST call raises, or returns a status and a body.
pub data Response : Type 0 where
  failure : Exn → Response
  reply : ℕ → Body → Response

-- The request body of `/info`.
pub record SnapshotRequest : Type 0 where
  pub coin : String
  pub interval : String
  pub start_time : ℤ
  pub end_time : ℤ

-- `except (ValueError, TypeError): return None`
abbrev pub none_on_bad_value {ℓ} : {A : Type ℓ} → Result A → Result (Option A)
none_on_bad_value (ok a) = ok (some a)
none_on_bad_value (err value_error) = ok none
none_on_bad_value (err type_error) = ok none
none_on_bad_value (err e) = err e

unfoldable pub interval_to_seconds : String → ℕ
interval_to_seconds interval =
    if str_eq interval "1m"
    then 60
    else if str_eq interval "5m"
    then 300
    else if str_eq interval "15m"
    then 900
    else if str_eq interval "30m"
    then 1800
    else if str_eq interval "1h"
    then 3600
    else if str_eq interval "4h"
    then 14400
    else if str_eq interval "1d"
    then 86400
    else 900

module _ (num : Numerics) where
  open num use {
    F, D, of_int, mul, div, int_of, decimal_of, is_nonzero, fromtimestamp, timestamp, truncate,
    is_nonzero_real,
  }

  pub record Candle : Type 0 where
    pub symbol : String
    pub timestamp : ℕ
    pub open_ : D
    pub high : D
    pub low : D
    pub close : D
    pub volume : Option D
    pub interval_seconds : ℕ

  -- core/time.py. A time is a natural: one before 1970 is left out.
  unfoldable pub from_ms : ℤ → Result ℕ
  from_ms ms = fromtimestamp (div (of_int ms) (lit num 1000))

  unfoldable pub to_ms : ℕ → ℤ
  to_ms dt = truncate (mul (timestamp dt) (lit num 1000))

  -- `bool(v)`
  abbrev pub truthy : Value → Bool
  truthy null = false
  truthy (boolean b) = b
  truthy (integer (pos n)) = not (n == 0)
  truthy (integer (negsuc n)) = true
  truthy (real s) = is_nonzero_real s
  truthy (text s) = not (str_eq s "")
  truthy (array b) = b
  truthy (object b) = b

  -- `a or b`
  abbrev pub or_value : Value → Value → Value
  or_value a b = if truthy a then a else b

  unfoldable pub get_timestamp_ms : Dict Value → Value
  get_timestamp_ms d =
      or_value (or_value (value_at "t" d) (value_at "time" d)) (value_at "timestamp" d)

  module _ (upper : String → String) where
    -- `Candle(...)`: a volume of zero is stored as None.
    unfoldable pub make_candle : String → ℕ → D → D → D → D → D → ℕ → Candle
    make_candle symbol timestamp open_ high low close volume interval_seconds = record {
      symbol = upper symbol;
      timestamp = timestamp;
      open_ = open_;
      high = high;
      low = low;
      close = close;
      volume = if is_nonzero volume then some volume else none;
      interval_seconds = interval_seconds;
    }

    -- The `try` body of `_candle_from_dict`.
    unfoldable pub build_candle :
        String → Value → Value → Value → Value → Value → Value → ℕ → Result Candle
    build_candle symbol ts_ms o h l c v interval_seconds = do
      ms ← int_of ts_ms
      timestamp ← from_ms ms
      open_ ← decimal_of o
      high ← decimal_of h
      low ← decimal_of l
      close ← decimal_of c
      volume ← decimal_of v
      ok (make_candle (upper symbol) timestamp open_ high low close volume interval_seconds)

    -- The None tests on the values that were read, and the `try`.
    unfoldable pub candle_of_values :
        String → Value → Value → Value → Value → Value → Value → ℕ → Result (Option Candle)
    candle_of_values symbol ts_ms o h l c v interval_seconds =
        if is_none ts_ms
        then ok none
        else if is_none o || (is_none h || (is_none l || is_none c))
        then ok none
        else none_on_bad_value (build_candle symbol ts_ms o h l c v interval_seconds)

    unfoldable pub candle_from_dict : String → Dict Value → ℕ → Result (Option Candle)
    candle_from_dict symbol d interval_seconds =
        candle_of_values symbol (get_timestamp_ms d) (or_value (value_at "o" d) (value_at "open" d))
          (or_value (value_at "h" d) (value_at "high" d))
          (or_value (value_at "l" d) (value_at "low" d))
          (or_value (value_at "c" d) (value_at "close" d))
          (or_value (or_value (value_at "v" d) (value_at "volume" d)) (integer (pos 0)))
          interval_seconds

    -- The loop of `fetch_candles`: a malformed item is skipped, one that raises ends the loop.
    unfoldable pub parse_items : String → ℕ → List Item → Result (List Candle)
    parse_items coin seconds [] = ok []
    parse_items coin seconds (other ∷ rest) = err attribute_error
    parse_items coin seconds (dict d ∷ rest) = candle_from_dict coin d seconds >>= λ candle.
        parse_items coin seconds rest >>= λ later.
        ok (elim candle [ none ↦ later | some c ↦ c ∷ later ])

    abbrev pub body_items : Body → Result (List Item)
    body_items (items xs) = ok xs
    body_items (wrapped (some xs)) = ok xs
    body_items (wrapped none) = ok []
    body_items unusable = err type_error
    body_items scalar = err attribute_error

    -- The `try` block of `fetch_candles`, on what the server answered.
    unfoldable pub read_response : String → ℕ → Response → Result (List Candle)
    read_response coin seconds (failure e) = err e
    read_response coin seconds (reply status body) = if not (status == 200) then ok [] else do
      found ← body_items body
      candles ← parse_items coin seconds found
      ok (sort_by (λ (c : Candle). c.timestamp) candles)

    -- `except Exception: return []`
    abbrev pub or_empty : Result (List Candle) → List Candle
    or_empty (ok cs) = cs
    or_empty (err _) = []

    module _ (server : SnapshotRequest → Response) where
      -- Without an end the request ends at `now_ms`, the reading of the clock.
      unfoldable pub fetch_candles : ℤ → String → ℕ → Option ℕ → String → List Candle
      fetch_candles now_ms coin start_time end_time interval = or_empty (
          read_response coin (interval_to_seconds interval) (
            server (record {
              coin = upper coin;
              interval = interval;
              start_time = to_ms start_time;
              end_time = elim end_time [ none ↦ now_ms | some t ↦ to_ms t ];
            })))

      -- `now` is the reading of the clock.
      unfoldable pub backfill : ℕ → String → ℕ → String → List Candle
      backfill now coin last_timestamp interval =
          select (λ (c : Candle). ltb last_timestamp c.timestamp)
            (fetch_candles (to_ms now) coin last_timestamp (some now) interval)
