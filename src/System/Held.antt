-- ===== src/System/Held.antt =====
-- The alert objects that a session of the retry task holds (worker/dispatch/retry.py).
use hyperliquid_trading_aler.Prelude.{
  ◌≡◌, refl, sym, ap, subst, ◌∙◌, inl, inr, Bool-cases, some, List, [], ◌∷◌, arith, All, ◌==◌,
}
use hyperliquid_trading_aler.Db.{World}
use hyperliquid_trading_aler.Db.Rows.{Alert}
use hyperliquid_trading_aler.Db.Table.{row, update, row-update_ne, row-update_self}
use hyperliquid_trading_aler.Dispatch.Outcome.{alert_key}
use hyperliquid_trading_aler.Evaluate.Engine.Windows.{SameWindow}
use hyperliquid_trading_aler.System.Sound.{Writes}

-- An alert object of a session: its row is stored, with the same rule and window.
abbrev pub IsHeld : World → Alert → Type 0
IsHeld w a = (old : Alert) × (row alert_key a.id w.db.alerts ≡ some old) × SameWindow old a

some-injective : {A : Type 0} {a b : A} → some a ≡ some b → a ≡ b
some-injective h = cc

pub Writes-IsHeld :
    (w : World) (b : Alert) (w' : World) (x : Alert)
    → Writes w b w'
    → IsHeld w b
    → IsHeld w x
    → IsHeld w' x
Writes-IsHeld w b w' x writes (old, known, same) (old', known', same') =
    elim (Bool-cases (b.id == x.id)) [
      | inl here ↦
          (let e : b.id ≡ x.id = ground arith in
            let agree : old ≡ old' =
              some-injective (sym known ∙ ap (λ k. row alert_key k w.db.alerts) e ∙ known') in
            (
              b,
              rw writes.alerts (
                  subst (λ k. row alert_key k (update alert_key b w.db.alerts) ≡ some b) e
                    (row-update_self alert_key b w.db.alerts known)),
              record {
                rule = sym same.rule ∙ ap (λ (y : Alert). y.rule_id) agree ∙ same'.rule;
                start = sym same.start ∙ ap (λ (y : Alert). y.window_start) agree ∙ same'.start;
                end_ = sym same.end_ ∙ ap (λ (y : Alert). y.window_end) agree ∙ same'.end_;
                triggered =
                    sym same.triggered ∙ ap (λ (y : Alert). y.triggered_at) agree ∙ same'.triggered;
              },
            ))
      | inr differs ↦ (
        old',
        rw writes.alerts (row-update_ne alert_key x.id b w.db.alerts (λ e. ground arith) ∙ known'),
        same',
      )
    ]

-- A held object that is written with the rule and the window it had.
pub IsHeld-write :
    (w : World) (a b : Alert) → b.id ≡ a.id → SameWindow a b → IsHeld w a → IsHeld w b
IsHeld-write w a b e same (old, known, same') = (
  old,
  rw e known,
  record {
    rule = same'.rule ∙ same.rule;
    start = same'.start ∙ same.start;
    end_ = same'.end_ ∙ same.end_;
    triggered = same'.triggered ∙ same.triggered;
  },
)

pub rows-IsHeld :
    (w : World) (xs : List Alert)
    → All (λ (a : Alert). row alert_key a.id w.db.alerts ≡ some a) xs
    → All (IsHeld w) xs
rows-IsHeld w [] h = tt
rows-IsHeld w (a ∷ xs) h = (
  (a, h.0, record { rule = refl; start = refl; end_ = refl; triggered = refl }),
  rows-IsHeld w xs h.1,
)
