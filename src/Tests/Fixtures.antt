-- ===== src/Tests/Fixtures.antt =====
-- Concrete data for the examples: an environment, a rule, an alert, a database.
use hyperliquid_trading_aler.Prelude.{
  ℕ, ◌+◌, ◌*◌, ◌-◌, Bool, true, false, none, some, List, [], ◌∷◌,
}
use hyperliquid_trading_aler.Prelude.Int.{pos}
use hyperliquid_trading_aler.Config.{WorkerSettings}
use hyperliquid_trading_aler.Numerics.Naturals.{naturals}
use hyperliquid_trading_aler.Db.{Env, Database, World, Post}
use hyperliquid_trading_aler.Db.Rows.{Rule, Alert, pending, text, integer}
use hyperliquid_trading_aler.Ingest.Market.{Candle}

-- The server refuses the first POST and accepts the next ones.
abbrev pub accepts_later : List Post → Post → Bool
accepts_later [] p = false
accepts_later (_ ∷ _) p = true

abbrev pub refuses : List Post → Post → Bool
refuses sent p = false

abbrev pub env_of : (List Post → Post → Bool) → Env
env_of accepts = record {
  clock = λ k. 1700000000000000 + k * 1000000;
  accepts = accepts;
  uniform = λ k hi. hi;
  elapsed_ms = λ a b. pos (b - a);
  describe = λ e. "HTTPStatusError";
  upper = λ s. s;
}

abbrev pub env : Env
env = env_of accepts_later

abbrev pub cfg : WorkerSettings
cfg = record { worker_id = "worker-1"; symbols = "BTC"; retry_backoff_max = 5; ingest_mode = "ws" }

abbrev pub rule : Rule
rule = record {
  id = 7;
  name = "BTC high";
  rule_type = "candle_close";
  symbol = "BTC";
  config = some (("operator", text ">=") ∷ ("value", integer (pos 100)) ∷ []);
  cooldown_seconds = some 60;
  discord_webhook_url = some "https://discord.example/hook";
  generic_webhook_url = some "https://hook.example/alert";
  is_active = some true;
  created_at = 0;
  updated_at = 0;
}

abbrev pub alert : Alert
alert = record {
  id = 1;
  rule_id = 7;
  symbol = "BTC";
  rule_type = "candle_close";
  triggered_at = 1699999000000000;
  trigger_value = some (pos 101);
  window_start = 1699998960000000;
  window_end = 1699999020000000;
  delivery_status = pending;
  delivery_attempts = 0;
  last_delivery_attempt = none;
  created_at = 1699999000000000;
}

abbrev pub candle_at : ℕ → ℕ → Candle naturals
candle_at timestamp price = record {
  symbol = "BTC";
  timestamp = timestamp;
  open_ = price;
  high = price;
  low = price;
  close = price;
  volume = none;
  interval_seconds = 900;
}

abbrev pub db : Database
db = record {
  rules = rule ∷ [];
  alerts = alert ∷ [];
  attempts = [];
  candles = [];
  cursors = [];
  api_keys = [];
}

abbrev pub world_of : Database → World
world_of d = record { db = d; committed = d; ticks = 0; draws = 0; fresh = 100; sent = [] }

abbrev pub world : World
world = world_of db
