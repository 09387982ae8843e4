-- ===== src/System/Reach.antt =====
-- The program from an empty database: every world that candles, passes of the retry task and requests can
-- lead to.
use hyperliquid_trading_aler.Db.Session.{get_db_session}
use hyperliquid_trading_aler.Prelude.{ℕ, ◌≡◌, List, [], sym, ◌∙◌, Bool, refl}
use hyperliquid_trading_aler.Config.{WorkerSettings}
use hyperliquid_trading_aler.Numerics.{Numerics}
use hyperliquid_trading_aler.Db.{Env, World, Database}
use hyperliquid_trading_aler.Db.Rows.{Rule, Dict, Value}
use hyperliquid_trading_aler.Ingest.Market.{Candle}
use hyperliquid_trading_aler.Worker.{process_candle}
use hyperliquid_trading_aler.Dispatch.Retry.{retry_scheduler}
use hyperliquid_trading_aler.Api.Rules.{
  RuleCreate, RuleUpdate, create_rule, update_rule, delete_rule,
}
use hyperliquid_trading_aler.System.Sound.{IsSound}
use hyperliquid_trading_aler.System.Candles.{candle-IsSound}
use hyperliquid_trading_aler.System.Retries.{scheduler-IsSound}
use hyperliquid_trading_aler.System.Routes.{
  create-IsSound, update-IsSound, delete-IsSound, session-IsSound,
}

abbrev pub empty : Database
empty = record { rules = []; alerts = []; attempts = []; candles = []; cursors = []; api_keys = [] }

-- A world before anything has run: nothing is stored.
abbrev pub IsNew : World → Type 0
IsNew w = (w.db ≡ empty) × (w.committed ≡ empty)

module _ (env : Env) (num : Numerics) (cfg : WorkerSettings)
    (same_config : Dict Value → Dict Value → Bool) where
  -- One step of the program. A worker processes a candle with the rules that it loaded at some time; they
  -- need not be those stored now.
  pub data Step (w : World) : World → Type 0 where
    candle :
        (loaded : List Rule) (c : Candle num) → Step w (process_candle env num cfg loaded c w).1
    retries : (rounds : ℕ) → Step w (retry_scheduler env cfg rounds w).1
    creates : (data_ : RuleCreate) → Step w (get_db_session (create_rule env data_) w).1
    updates :
        (k : ℕ) (data_ : RuleUpdate)
        → Step w (get_db_session (update_rule env same_config k data_) w).1
    deletes : (k : ℕ) → Step w (get_db_session (delete_rule env k) w).1

  pub data Reach : World → Type 0 where
    start : {w : World} → IsNew w → Reach w
    later : {w w' : World} → Reach w → Step w w' → Reach w'

  step-IsSound : {w w' : World} → Step w w' → IsSound w → IsSound w'
  step-IsSound (candle loaded c) sound = candle-IsSound env num cfg loaded c _ sound
  step-IsSound (retries rounds) sound = (scheduler-IsSound env cfg rounds _ sound).1
  step-IsSound (creates data_) sound =
      session-IsSound (create_rule env data_) _ (create-IsSound env data_ _ sound)
  step-IsSound (updates k data_) sound =
      session-IsSound (update_rule env same_config k data_) _
        (update-IsSound env same_config k data_ _ sound)
  step-IsSound (deletes k) sound =
      session-IsSound (delete_rule env k) _ (delete-IsSound env k _ sound)

  new-IsSound : (w : World) → IsNew w → IsSound w
  new-IsSound w (same, durable) = record {
    consistent = record { durable = durable ∙ sym same; alerts = rw same tt; candles = rw same tt };
    alerts = rw same (record { keyed = tt; below = tt });
    rules = rw same (record { keyed = tt; below = tt });
    linked = rw same tt;
    owned = rw same refl;
    audited = rw same tt;
  }

  -- In every world that the program can come to from an empty database, by candles processed with
  -- any loaded rules, rounds of the retry task and requests that create, change and delete rules,
  -- each ended by the commit or rollback of its session, in any order: everything is committed,
  -- every alert's window is the minute in which it was triggered, no two alerts share their rule
  -- and their window, no two candles share symbol, time and interval, no two alerts and no two
  -- rules share an identifier, the rule of every alert and the alert of every delivery attempt are
  -- stored, and every delivered alert has an attempt in the log that succeeded.
  pub Reach-IsSound : {w : World} → Reach w → IsSound w
  Reach-IsSound (start {w = w} new) = new-IsSound w new
  Reach-IsSound (later before step) = step-IsSound step (Reach-IsSound before)
