-- ===== src/Api/Keys.antt =====
-- scripts/create_api_key.py: a new key, and what the middleware (api/middleware/auth.py) makes of it. The
-- random part of the key is a parameter; what the script prints is the identifier and the key.
use hyperliquid_trading_aler.Prelude.{
  ℕ, String, Bool, true, none, some, ◌∷◌, find, str_eq, integrity_error,
}
use hyperliquid_trading_aler.Db.{
  Env, World, M, pure, raise, modify, commit, uuid4, utcnow, ◌>>=◌, ◌>>◌,
}
use hyperliquid_trading_aler.Db.Rows.{ApiKey}

abbrev pub has_hash : String → ApiKey → Bool
has_hash h k = str_eq k.key_hash h

-- The flush of a new key's row, under the unique constraint on `key_hash`.
unfoldable pub insert_key : ApiKey → M (Unit {0})
insert_key key w = elim (find (has_hash key.key_hash) w.db.api_keys) [
  | some _ ↦ raise integrity_error w
  | none ↦ modify (λ db. record db { api_keys = key ∷ db.api_keys }) w
]

module _ (env : Env) (hash_key : String → String) where
  abbrev pub new_key : String → String → ℕ → World → ApiKey
  new_key raw_key name rpm w = record {
    id = w.fresh;
    name = name;
    key_hash = hash_key raw_key;
    requests_per_minute = rpm;
    is_active = true;
    created_at = env.clock w.ticks;
    last_used_at = none;
  }

  -- `main` for a rate that is not negative, once the arguments are parsed and `raw_key` is drawn.
  unfoldable pub create_api_key : String → String → ℕ → M ℕ
  unfolding insert_key
  create_api_key raw_key name rpm = do
    k ← uuid4
    now ← utcnow env
    insert_key (record {
      id = k;
      name = name;
      key_hash = hash_key raw_key;
      requests_per_minute = rpm;
      is_active = true;
      created_at = now;
      last_used_at = none;
    })
    commit
    pure k
