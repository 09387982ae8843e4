-- ===== src/Db/Rows.antt =====
-- The rows of the six tables (db/models/). Identifiers are numbers in place of UUIDs, a time is the
-- number of microseconds since the Unix epoch (the columns are naive UTC), and a Numeric(20, 8)
-- column is an integer, in units of its eighth decimal.
use hyperliquid_trading_aler.Prelude.{ℕ, String, Bool, Option, List}
use hyperliquid_trading_aler.Prelude.Int.{ℤ}

-- A value of a decoded JSON document. Of a list and of an object the code only asks whether it is
-- empty; `integer` and `real` are the two kinds of JSON number, a real by its source text.
pub data Value : Type 0 where
  null : Value
  boolean : Bool → Value
  integer : ℤ → Value
  real : String → Value
  text : String → Value
  array object : Bool → Value

-- A Python dict with text keys, in insertion order.
abbrev pub Dict : Type 0 → Type 0
Dict V = List (String × V)

-- db/models/rule.py. The columns of the cooldown and of the activity may hold null, and the document
-- of the configuration may be JSON's null.
pub record Rule : Type 0 where
  pub id : ℕ
  pub name : String
  pub rule_type : String
  pub symbol : String
  pub config : Option (Dict Value)
  pub cooldown_seconds : Option ℕ
  pub discord_webhook_url : Option String
  pub generic_webhook_url : Option String
  pub is_active : Option Bool
  pub created_at : ℕ
  pub updated_at : ℕ

-- The enum column of alerts, db/models/alert.py.
pub data DeliveryStatus : Type 0 where
  pending delivered failed : DeliveryStatus

abbrev pub is_pending : DeliveryStatus → Bool
is_pending pending = Bool.true
is_pending _ = Bool.false

-- db/models/alert.py
pub record Alert : Type 0 where
  pub id : ℕ
  pub rule_id : ℕ
  pub symbol : String
  pub rule_type : String
  pub triggered_at : ℕ
  pub trigger_value : Option ℤ
  pub window_start : ℕ
  pub window_end : ℕ
  pub delivery_status : DeliveryStatus
  pub delivery_attempts : ℕ
  pub last_delivery_attempt : Option ℕ
  pub created_at : ℕ

-- The two values of the status column of delivery attempts.
pub data AttemptStatus : Type 0 where
  success failed : AttemptStatus

-- db/models/alert_delivery_attempt.py
pub record AlertDeliveryAttempt : Type 0 where
  pub id : ℕ
  pub alert_id : ℕ
  pub attempt_no : ℕ
  pub status : AttemptStatus
  pub response_code : Option ℕ
  pub latency_ms : Option ℤ
  pub error : Option String
  pub created_at : ℕ

-- db/models/candle.py
pub record CandleModel : Type 0 where
  pub id : ℕ
  pub symbol : String
  pub timestamp : ℕ
  pub open_ : ℤ
  pub high : ℤ
  pub low : ℤ
  pub close : ℤ
  pub volume : Option ℤ
  pub interval_seconds : ℕ
  pub created_at : ℕ

-- db/models/cursor.py
pub record WorkerCursor : Type 0 where
  pub id : ℕ
  pub worker_id : String
  pub symbol : String
  pub last_processed_timestamp : ℕ
  pub updated_at : ℕ

-- db/models/api_key.py
pub record ApiKey : Type 0 where
  pub id : ℕ
  pub name : String
  pub key_hash : String
  pub requests_per_minute : ℕ
  pub is_active : Bool
  pub created_at : ℕ
  pub last_used_at : Option ℕ
