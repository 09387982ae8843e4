-- ===== src/Db.antt =====
-- The database and a session on it (db/models/, db/base.py), and the outside world that the code
-- reads: the clock, random numbers and the network. An action is a function of the world that may
-- raise; what was written before a raise stays written, so the world comes back beside it.
pub mod Rows
pub mod Session
pub mod Url
pub mod Engine
pub mod Table
use hyperliquid_trading_aler.Prelude.{
  ℕ, ◌+◌, String, Bool, true, false, Option, none, some, List, ◌∷◌, Exn, Result, ok, err,
  http_error, if◌then◌else◌,
}
use hyperliquid_trading_aler.Prelude.Int.{ℤ}
use Rows.{Rule, Alert, AlertDeliveryAttempt, CandleModel, WorkerCursor, ApiKey}

pub record Database : Type 0 where
  pub rules : List Rule
  pub alerts : List Alert
  pub attempts : List AlertDeliveryAttempt
  pub candles : List CandleModel
  pub cursors : List WorkerCursor
  pub api_keys : List ApiKey

-- What a webhook is sent: the values that the texts of the embed, or of the JSON body, are made of.
pub data Payload : Type 0 where
  discord_embed : String → String → Option ℤ → String → ℕ → Payload
  generic_json : ℕ → ℕ → String → String → String → Option ℤ → ℕ → Payload

-- One HTTP POST: its URL and its payload.
pub record Post : Type 0 where
  pub url : String
  pub payload : Payload

-- `db` is what the session sees, `committed` what is durable; a rollback returns to it. `ticks`,
-- `draws` and `fresh` count the readings of the clock, the random numbers and the identifiers
-- used so far; `sent` holds every POST made, the newest first.
pub record World : Type 0 where
  pub db : Database
  pub committed : Database
  pub ticks : ℕ
  pub draws : ℕ
  pub fresh : ℕ
  pub sent : List Post

-- The environment, which the program does not control: the reading of the clock at each tick,
-- whether the server answers a POST with a status that `raise_for_status` accepts (as it likes, from
-- all it was sent before), the random numbers up to a bound, the milliseconds between two times as
-- float arithmetic gives them, the text of an exception, and Python's `str.upper`.
pub record Env : Type 0 where
  pub clock : ℕ → ℕ
  pub accepts : List Post → Post → Bool
  pub uniform : ℕ → ℕ → ℕ
  pub elapsed_ms : ℕ → ℕ → ℤ
  pub describe : Exn → String
  pub upper : String → String

abbrev pub M {ℓ} : Type ℓ → Type ℓ
M A = World → Result A × World

module _ {ℓ} {A : Type ℓ} where
  abbrev pub pure : A → M A
  pure a w = (ok a, w)

  abbrev pub raise : Exn → M A
  raise e w = (err e, w)

  abbrev pub lift : Result A → M A
  lift r w = (r, w)

  -- `try: m  except Exception as e: handler(e)`
  abbrev pub except : M A → (Exn → M A) → M A
  except m handler w = let (r, w') = m w in elim r [ ok a ↦ (ok a, w') | err e ↦ handler e w' ]

infixl 5 ◌>>=◌ ◌>>◌
abbrev pub ◌>>=◌ {ℓ κ} : {A : Type ℓ} {B : Type κ} → M A → (A → M B) → M B
◌>>=◌ m f w = let (r, w') = m w in elim r [ ok a ↦ f a w' | err e ↦ (err e, w') ]

abbrev pub ◌>>◌ {ℓ κ} : {A : Type ℓ} {B : Type κ} → M A → M B → M B
m >> k = m >>= λ _. k

abbrev pub gets {ℓ} : {A : Type ℓ} → (Database → A) → M A
gets f w = (ok (f w.db), w)

abbrev pub modify : (Database → Database) → M (Unit {0})
modify f w = (ok tt, record w { db = f w.db })

-- `await db.commit()` and `await db.rollback()`
abbrev pub commit : M (Unit {0})
commit w = (ok tt, record w { committed = w.db })

abbrev pub rollback : M (Unit {0})
rollback w = (ok tt, record w { db = w.committed })

-- `default=uuid.uuid4`: identifiers are numbered as they are made.
abbrev pub uuid4 : M ℕ
uuid4 w = (ok w.fresh, record w { fresh = w.fresh + 1 })

module _ (env : Env) where
  -- core/time.py
  abbrev pub utcnow : M ℕ
  utcnow w = (ok (env.clock w.ticks), record w { ticks = w.ticks + 1 })

  -- `random.uniform(0, hi)`, in microseconds
  abbrev pub uniform : ℕ → M ℕ
  uniform hi w = (ok (env.uniform w.draws hi), record w { draws = w.draws + 1 })

  -- `client.post(url, json=payload)` and `raise_for_status()`
  abbrev pub post : String → Payload → M (Unit {0})
  post url payload w =
      let p : Post = record { url = url; payload = payload } in
      (if env.accepts w.sent p then ok tt else err http_error, record w { sent = p ∷ w.sent })
