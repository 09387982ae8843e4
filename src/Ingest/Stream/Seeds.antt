-- ===== src/Ingest/Stream/Seeds.antt =====
-- What a client has seen at first: the cursors that it was given (worker/ingest/hyperliquid.py).
use hyperliquid_trading_aler.Prelude.{
  ℕ, ◌≡◌, refl, ap, ◌∙◌, String, Option, none, some, List, [], ◌∷◌, arith, str_eq, eq_iff,
  if◌then◌else◌,
}
use hyperliquid_trading_aler.Ingest.Stream.{LastSeen, last_seen, see, seed_last_seen}

pub last_seen-see_if :
    (s k : String) (t : ℕ) (seen : LastSeen)
    → last_seen s (see k t seen) ≡ (if str_eq k s then some t else last_seen s seen)
last_seen-see_if s k t [] = refl
last_seen-see_if s k t ((j, u) ∷ d) =
    ground (arith, eq_iff j k, eq_iff k s, eq_iff j s, last_seen-see_if s k t d)

abbrev pub or_else : {A : Type 0} → Option A → Option A → Option A
or_else none b = b
or_else (some a) b = some a

pub or_else-none : {A : Type 0} (o : Option A) → or_else o none ≡ o
or_else-none none = refl
or_else-none (some a) = refl

-- The time of the last cursor of a symbol, by its name in upper case.
abbrev pub cursor_time : (String → String) → String → List (String × ℕ) → Option ℕ
cursor_time upper s [] = none
cursor_time upper s ((k, t) ∷ cursors) =
    or_else (cursor_time upper s cursors) (if str_eq (upper k) s then some t else none)

seed-or_else :
    (upper : String → String) (s : String) (cursors : List (String × ℕ)) (seen : LastSeen)
    → last_seen s (seed_last_seen upper cursors seen)
      ≡ or_else (cursor_time upper s cursors) (last_seen s seen)
unfolding seed_last_seen
seed-or_else upper s [] seen = refl
seed-or_else upper s ((k, t) ∷ cursors) seen =
    seed-or_else upper s cursors (see (upper k) t seen)
    ∙ ap (or_else (cursor_time upper s cursors)) (last_seen-see_if s (upper k) t seen)
    ∙ ground arith

pub seed-cursor_time :
    (upper : String → String) (s : String) (cursors : List (String × ℕ))
    → last_seen s (seed_last_seen upper cursors []) ≡ cursor_time upper s cursors
seed-cursor_time upper s cursors =
    seed-or_else upper s cursors [] ∙ or_else-none (cursor_time upper s cursors)
