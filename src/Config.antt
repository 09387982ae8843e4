-- ===== src/Config.antt =====
-- worker/config.py and api/config.py: the settings that the modelled code reads, and the lists of
-- symbols and of CORS origins that they make of a text.
pub mod Symbols
use Prim.Native.Char.{Char, code}
use Prim.Native.String
use hyperliquid_trading_aler.Prelude.{
  ℕ, String, Bool, true, false, ◌&&◌, ◌||◌, not, List, [], ◌∷◌, map, select, leb, str_eq, ◌==◌,
  if◌then◌else◌,
}

pub record WorkerSettings : Type 0 where
  pub worker_id : String
  pub symbols : String
  pub retry_backoff_max : ℕ
  pub ingest_mode : String

pub record ApiSettings : Type 0 where
  pub api_key : String
  pub admin_rate_limit_per_minute : ℕ
  pub redis_url : String
  pub cors_origins : String

-- A character in front of the first part.
abbrev pub in_front : Char → List String → List String
in_front c [] = String.◌∷◌ c String.[] ∷ []
in_front c (p ∷ ps) = String.◌∷◌ c p ∷ ps

-- `s.split(",")`
abbrev pub split_commas : String → List String
split_commas String.[] = String.[] ∷ []
split_commas (String.◌∷◌ c s) =
    let rest = split_commas s in if code c == 44 then String.[] ∷ rest else in_front c rest

abbrev between : ℕ → ℕ → ℕ → Bool
between a b n = leb a n && leb n b

-- `c.isspace()`
abbrev pub is_space : Char → Bool
is_space c =
    let n = code c in
    between 9 13 n
    || (between 28 32 n
        || (n == 133
            || (n == 160
                || (n == 5760
                    || (between 8192 8202 n
                        || (between 8232 8233 n || (n == 8239 || (n == 8287 || n == 12288))))))))

abbrev pub lstrip : String → String
lstrip String.[] = String.[]
lstrip (String.◌∷◌ c s) = let rest = lstrip s in if is_space c then rest else String.◌∷◌ c s

abbrev pub rstrip : String → String
rstrip String.[] = String.[]
rstrip (String.◌∷◌ c s) =
    let rest = rstrip s in if is_space c && str_eq rest "" then String.[] else String.◌∷◌ c rest

-- `s.strip()`
abbrev pub strip : String → String
strip s = rstrip (lstrip s)

-- `[s.strip().upper() for s in self.symbols.split(",") if s.strip()]`
unfoldable pub symbol_list : (String → String) → WorkerSettings → List String
symbol_list upper cfg =
    map (λ s. upper (strip s)) (select (λ s. not (str_eq (strip s) "")) (split_commas cfg.symbols))

-- `[o.strip() for o in self.cors_origins.split(",") if o.strip()]`
unfoldable pub cors_origin_list : ApiSettings → List String
cors_origin_list cfg =
    map strip (select (λ s. not (str_eq (strip s) "")) (split_commas cfg.cors_origins))
