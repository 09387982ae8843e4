-- ===== src/System/Audited.antt =====
-- What the log of delivery attempts shows of the alerts (db/models/alert_delivery_attempt.py).
pub mod Deleted
use hyperliquid_trading_aler.Prelude.{
  ℕ, ◌≡◌, refl, sym, Bool, true, false, ◌&&◌, ◌||◌, not, Option, none, some, List, [], ◌∷◌, All,
  arith, ◌==◌, select, Bool-cases, Option-cases, inl, inr, ap, ◌∙◌, subst,
}
use hyperliquid_trading_aler.Db.Rows.{Alert, AlertDeliveryAttempt, AttemptStatus, delivered}
use hyperliquid_trading_aler.Db.Table.{row, update, row-update_self, row-update_ne}
use hyperliquid_trading_aler.Dispatch.Outcome.{alert_key}

abbrev pub is_success : AttemptStatus → Bool
is_success AttemptStatus.success = true
is_success AttemptStatus.failed = false

-- The log has a successful attempt of the alert.
abbrev pub has_success : ℕ → List AlertDeliveryAttempt → Bool
has_success k [] = false
has_success k (t ∷ ts) = (t.alert_id == k && is_success t.status) || has_success k ts

-- Every delivered alert has a successful attempt in the log.
abbrev pub IsAudited : List AlertDeliveryAttempt → List Alert → Type 0
IsAudited log = All (λ (a : Alert). a.delivery_status ≡ delivered → has_success a.id log ≡ true)

-- The alerts of all attempts pass the test.
abbrev pub all_owners : (ℕ → Bool) → List AlertDeliveryAttempt → Bool
all_owners p [] = true
all_owners p (t ∷ ts) = p t.alert_id && all_owners p ts

abbrev pub is_stored : List Alert → ℕ → Bool
is_stored alerts k = elim (row alert_key k alerts) [ none ↦ false | some _ ↦ true ]

-- The alert of every attempt is stored.
abbrev pub IsOwned : List AlertDeliveryAttempt → List Alert → Type 0
IsOwned log alerts = all_owners (is_stored alerts) log ≡ true

pub all_owners-weaken :
    (p q : ℕ → Bool) (log : List AlertDeliveryAttempt)
    → ((k : ℕ) → p k ≡ true → q k ≡ true)
    → all_owners p log ≡ true
    → all_owners q log ≡ true
all_owners-weaken p q [] h all = refl
all_owners-weaken p q (t ∷ ts) h all = ground (arith, h t.alert_id, all_owners-weaken p q ts h)

pub is_stored-row :
    (alerts : List Alert) (k : ℕ) {a : Alert}
    → row alert_key k alerts ≡ some a
    → is_stored alerts k ≡ true
is_stored-row alerts k found = ground arith

is_stored-update :
    (b : Alert) (alerts : List Alert) (k : ℕ)
    → is_stored alerts k ≡ true
    → is_stored (update alert_key b alerts) k ≡ true
is_stored-update b [] k h = h
is_stored-update b (x ∷ t) k h = ground (arith, is_stored-update b t k)

-- A new alert comes before the others.
pub IsOwned-cons :
    (a : Alert) (alerts : List Alert) (log : List AlertDeliveryAttempt)
    → IsOwned log alerts
    → IsOwned log (a ∷ alerts)
IsOwned-cons a alerts log h =
    all_owners-weaken (is_stored alerts) (is_stored (a ∷ alerts)) log (λ k stored. ground arith) h

-- What a step does to the log that writes the alert `b`.
pub record Logs (b : Alert) (log log' : List AlertDeliveryAttempt) : Type 0 where
  pub grows : (k : ℕ) → has_success k log ≡ true → has_success k log' ≡ true
  pub owners : (p : ℕ → Bool) → p b.id ≡ true → all_owners p log ≡ true → all_owners p log' ≡ true
  pub recorded : b.delivery_status ≡ delivered → has_success b.id log' ≡ true

module _ {b : Alert} {log log' : List AlertDeliveryAttempt} (logs : Logs b log log') where
  pub Logs-IsAudited :
      (alerts : List Alert) → IsAudited log alerts → IsAudited log' (update alert_key b alerts)
  Logs-IsAudited [] h = tt
  Logs-IsAudited (x ∷ t) h = elim (Bool-cases (x.id == b.id)) [
    | inl here ↦ rw here (logs.recorded, later t h.1)
    | inr apart ↦ rw apart ((λ e. logs.grows x.id (h.0 e)), Logs-IsAudited t h.1)
  ]
    where
      later : (t : List Alert) → IsAudited log t → IsAudited log' t
      later [] h = tt
      later (x ∷ t) h = ((λ e. logs.grows x.id (h.0 e)), later t h.1)

  pub Logs-IsOwned :
      (alerts : List Alert) {old : Alert}
      → row alert_key b.id alerts ≡ some old
      → IsOwned log alerts
      → IsOwned log' (update alert_key b alerts)
  Logs-IsOwned alerts {old} known h =
      let alerts' = update alert_key b alerts in
      logs.owners (is_stored alerts')
        (is_stored-row alerts' b.id (row-update_self alert_key b alerts {a = old} known))
        (all_owners-weaken (is_stored alerts) (is_stored alerts') log (is_stored-update b alerts) h)
