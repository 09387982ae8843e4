-- ===== src/Tests/Service.antt =====
-- Examples of the API: a Redis that counts, requests, and the routes.
use hyperliquid_trading_aler.Db.Table.{row}
use hyperliquid_trading_aler.Prelude.{
  ℕ, ◌+◌, ◌-◌, ◌≡◌, ◌⊎◌, inr, refl, min, String, Bool, true, false, ◌&&◌, none, some, ok, List, [],
  ◌∷◌, arith, ◌==◌, if◌then◌else◌, ◌≢◌,
}
use hyperliquid_trading_aler.Prelude.Int.{pos}
use hyperliquid_trading_aler.Config.{ApiSettings, cors_origin_list}
use hyperliquid_trading_aler.Db.{World}
use hyperliquid_trading_aler.Db.Rows.{ApiKey, text, integer, Rule, Dict, Value}
use hyperliquid_trading_aler.Api.RateLimit.{Bucket, admin, of_key, Key, rl, Redis, Limiter}
use hyperliquid_trading_aler.Api.RateLimit.Window.{Counts, passed, window_exact}
use hyperliquid_trading_aler.Api.Auth.{Request, plain, ApiState, middleware, write_route}
use hyperliquid_trading_aler.Api.Auth.Access.{Refused, but_keys, write_needs_admin_key}
use hyperliquid_trading_aler.Api.App.{remove_rule, app}
use hyperliquid_trading_aler.Api.App.Guarded.{app-guarded}
use hyperliquid_trading_aler.Api.Rules.{
  RuleCreate, is_valid, status, create_rule, get_rule, delete_rule, rule_key,
}
use hyperliquid_trading_aler.Api.Rules.{rule as answer_rule}
use hyperliquid_trading_aler.Api.Rules.Crud.{get-create, IsRuleOf, delete-IsLinked, IsLinked}
use hyperliquid_trading_aler.Tests.Fixtures.{env, db, world, world_of}

abbrev same_bucket : Bucket → Bucket → Bool
same_bucket admin admin = true
same_bucket (of_key a) (of_key b) = a == b
same_bucket _ _ = false

abbrev same_key : Key → Key → Bool
same_key (rl a m) (rl b n) = same_bucket a b && m == n

same_key_refl : (k : Key) → same_key k k ≡ true
same_key_refl (rl admin m) = ground arith
same_key_refl (rl (of_key a) m) = ground arith

-- A Redis that always answers.
abbrev counters : Redis
counters = record {
  State = Key → ℕ;
  installed = true;
  ping = λ s. (ok tt, s);
  incr = λ k s. (ok (s k + 1), λ j. s j + (if same_key j k then 1 else 0));
  expire = λ k n s. (ok tt, s);
}

abbrev counters_count : Counts counters
counters_count = record {
  value = λ k s. s k;
  incr_ok = λ k s. (refl, rw (same_key_refl k) refl);
  expire_ok = λ k n s. (refl, refl);
}

abbrev connected : Limiter counters
connected = record { cached = true; server = λ k. 0 }

abbrev times : List ℕ
times = 1700000041 ∷ 1700000045 ∷ 1700000050 ∷ []

window_exact_example :
    passed counters (some "redis://cache") (of_key 3) 2 times connected ≡ min 3 (2 - 0)
window_exact_example =
    window_exact counters (some "redis://cache") (of_key 3) 2 counters_count 28333334 times
      connected refl (refl, (refl, (refl, tt)))

abbrev settings : ApiSettings
settings = record {
  api_key = "admin-key";
  admin_rate_limit_per_minute = 1000;
  redis_url = "";
  cors_origins = "http://localhost:3000, *";
}

-- A wildcard is an origin like any other.
origins_parsed : cors_origin_list settings ≡ "http://localhost:3000" ∷ "*" ∷ []
unfolding cors_origin_list
origins_parsed = refl

-- A key of the table, by the hash of "pk_1", which is its own text here.
abbrev api_key : ApiKey
api_key = record {
  id = 3;
  name = "dashboard";
  key_hash = "pk_1";
  requests_per_minute = 60;
  is_active = true;
  created_at = 0;
  last_used_at = none;
}

abbrev hash_key : String → String
hash_key s = s

abbrev database_up : World → Bool
database_up w = true

abbrev state : ApiState env hash_key database_up counters
state = record { world = world_of (record db { api_keys = api_key ∷ [] }); limiter = connected }

abbrev request : Request
request = record { path = "/api/v1/rules"; method = "POST"; x_api_key = some "pk_1" }

write_needs_admin_key_example : Refused env hash_key database_up counters state.world.db (
    middleware env hash_key database_up counters settings
      (write_route env hash_key database_up counters settings (λ st. (ok (plain 201), st)) request)
      1700000041
      request
      state)
write_needs_admin_key_example =
    write_needs_admin_key env hash_key database_up counters settings (λ st. (ok (plain 201), st))
      1700000041 request state (λ e. absurd (cc))

abbrev same_config : Dict Value → Dict Value → Bool
same_config a b = false

abbrev deletion : Request
deletion = record { path = "/api/v1/rules/7"; method = "DELETE"; x_api_key = some "pk_1" }

-- A key of the table does not delete a rule.
app-guarded_example :
    let (_, st') =
      app env hash_key database_up counters same_config settings
        (λ h. h)
        1700000041
        (remove_rule 7)
        deletion
        state in
    (but_keys st'.world.db ≡ but_keys state.world.db) × (st'.world.committed ≡ st'.world.db)
app-guarded_example =
    app-guarded env hash_key database_up counters same_config settings (λ h. h) 1700000041
      (remove_rule 7) deletion state (λ h s. inr refl) (inr (λ e. absurd (cc))) refl

abbrev body : RuleCreate
body = record {
  name = "BTC high";
  rule_type = "candle_close";
  symbol = "BTC";
  config = ("operator", text ">=") ∷ ("value", integer (pos 100)) ∷ [];
  cooldown_seconds = 60;
  discord_webhook_url = none;
  generic_webhook_url = none;
  is_active = true;
}

get-create_example :
    let (result, w') = create_rule env body world in
    ((is_valid body ≡ true)
      × ((r : Rule) × IsRuleOf env body world r
          × (result ≡ ok (answer_rule 201 r))
          × ((get_rule env r.id w').0 ≡ ok (answer_rule 200 r))
          × (w'.db ≡ record db { rules = r ∷ db.rules })
          × (w'.committed ≡ w'.db)))
    ⊎ ((is_valid body ≡ false) × (result ≡ ok (status 422)) × (w' ≡ world))
get-create_example = get-create env body world

delete-IsLinked_example :
    let (result, w') = delete_rule env 7 world in
    IsLinked w'.db
    × (row rule_key 7 w'.db.rules ≡ none)
    × (((row rule_key 7 world.db.rules ≢ none)
          × (result ≡ ok (status 204))
          × (w'.committed ≡ w'.db))
        ⊎ ((row rule_key 7 world.db.rules ≡ none) × (result ≡ ok (status 404)) × (w' ≡ world)))
delete-IsLinked_example =
    delete-IsLinked env 7 world (refl, tt)
      (record { alerts = ((λ e. ground arith), tt); attempts = tt })
