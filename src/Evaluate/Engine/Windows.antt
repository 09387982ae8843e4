-- ===== src/Evaluate/Engine/Windows.antt =====
-- The idempotency window and the unique constraint on it (worker/evaluate/engine.py,
-- db/models/alert.py).
use hyperliquid_trading_aler.Prelude.{
  ℕ, ◌+◌, ◌/◌, ◌%◌, ◌≤◌, ◌<◌, ◌≡◌, ◌↔◌, refl, true, none, some, List, [], ◌∷◌, arith, find, ◌==◌,
  Bool-cases, inl, inr, subst, sym,
}
use hyperliquid_trading_aler.Db.Rows.{Alert}
use hyperliquid_trading_aler.Db.Table.{row, update}
use hyperliquid_trading_aler.Evaluate.Engine.{get_idempotency_window, same_window}

-- The window of a time is the whole minute that holds it, from a multiple of 60 seconds to the next.
-- Two times have one window exactly when they lie in the same minute.
pub window_minute :
    (t u : ℕ)
    → let (start, end) = get_idempotency_window t in
      (start ≤ t)
      × (t < end)
      × (end ≡ start + 60000000)
      × (start % 60000000 ≡ 0)
      × ((start ≡ (get_idempotency_window u).0) ↔ (t / 60000000 ≡ u / 60000000))
unfolding get_idempotency_window
window_minute t u =
    (omega arith, omega arith, refl, omega arith, ((λ e. omega arith), (λ e. omega arith)))

-- The window of an alert is the whole minute in which it was triggered.
abbrev pub IsWindowed : Alert → Type 0
IsWindowed a =
    (a.window_start ≤ a.triggered_at)
    × (a.triggered_at < a.window_end)
    × (a.window_end ≡ a.window_start + 60000000)
    × (a.window_start % 60000000 ≡ 0)

-- Every alert has the window of its minute, and no two share their rule and their window.
abbrev pub IsUnique : List Alert → Type 0
IsUnique [] = Unit
IsUnique (a ∷ t) = ((find (same_window a) t ≡ none) × IsWindowed a) × IsUnique t

-- An alert's rule, window and time.
pub record SameWindow (a b : Alert) : Type 0 where
  pub rule : a.rule_id ≡ b.rule_id
  pub start : a.window_start ≡ b.window_start
  pub end_ : a.window_end ≡ b.window_end
  pub triggered : a.triggered_at ≡ b.triggered_at

abbrev key : Alert → ℕ
key a = a.id

pub same_window_refl : (a b : Alert) → SameWindow a b → same_window a b ≡ true
same_window_refl a b h = ground arith

pub find-ext :
    (a b : Alert) (t : List Alert)
    → a.rule_id ≡ b.rule_id
    → a.window_start ≡ b.window_start
    → a.window_end ≡ b.window_end
    → find (same_window a) t ≡ none
    → find (same_window b) t ≡ none
find-ext a b [] rule start end_ e = refl
find-ext a b (x ∷ t) rule start end_ e = ground (arith, find-ext a b t rule start end_)

find-update :
    (a b : Alert) (t : List Alert) {old : Alert}
    → row key b.id t ≡ some old
    → SameWindow old b
    → find (same_window a) t ≡ none
    → find (same_window a) (update key b t) ≡ none
find-update a b [] known h e = refl
find-update a b (x ∷ t) {old} known h e = ground (arith, find-update a b t {old = old})

SameWindow-IsWindowed : (a b : Alert) → SameWindow a b → IsWindowed a → IsWindowed b
SameWindow-IsWindowed a b h (low, high, size, whole) = (
  omega (arith, h.start, h.triggered, low),
  ground (arith, h.end_, h.triggered, high),
  ground (arith, h.start, h.end_, size),
  ground (arith, h.start, whole),
)

-- A write to an alert that leaves its rule, window and time alone keeps the constraint.
pub update-IsUnique :
    (b : Alert) (t : List Alert) {old : Alert}
    → row key b.id t ≡ some old
    → SameWindow old b
    → IsUnique t
    → IsUnique (update key b t)
update-IsUnique b [] known h u = tt
update-IsUnique b (x ∷ t) {old} known h u = elim (Bool-cases (key x == key b)) [
  | inl same ↦
      (let e : x ≡ old = ground arith in
        let mine = subst (λ y. SameWindow y b) (sym e) h in
        rw same (
          (
            find-ext x b t mine.rule mine.start mine.end_ u.0.0,
            SameWindow-IsWindowed x b mine u.0.1,
          ),
          u.1,
        ))
  | inr differs ↦
      (let below : row key b.id t ≡ some old = ground arith in
        rw differs ((find-update x b t below h u.0.0, u.0.1), update-IsUnique b t below h u.1))
]
