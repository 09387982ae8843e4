-- ===== src/Db/Engine.antt =====
-- db/base.py: the URL that the application connects with, and the options of its engine. A settings
-- module that cannot be imported is `none`.
use hyperliquid_trading_aler.Prelude.{
  ℕ, String, Bool, true, false, Option, none, some, if◌then◌else◌,
}
use hyperliquid_trading_aler.Db.Url.{starts_with, database_url}

-- `DATABASE_URL`: from the API's settings, or the worker's, or the environment, or the default.
unfoldable pub application_url : Option String → Option String → Option String → String
application_url (some api) worker given = api
application_url none (some worker) given = worker
application_url none none given = database_url given

-- `_engine_kwargs`
pub record EngineOptions : Type 0 where
  pub echo : Bool
  pub future : Bool
  pub pool_pre_ping : Bool
  pub pool_size : Option ℕ
  pub max_overflow : Option ℕ

unfoldable pub engine_options : String → EngineOptions
engine_options url =
    let pooled : EngineOptions = record {
      echo = false;
      future = true;
      pool_pre_ping = true;
      pool_size = some 10;
      max_overflow = some 20;
    } in
    if starts_with "sqlite" url
    then record pooled { pool_size = none; max_overflow = none }
    else pooled
