-- ===== src/System/Audited/Deleted.antt =====
-- A deleted rule takes its alerts along, and they their attempts (api/routes/rules.py): what is left of
-- the log and of the alerts still fits.
use hyperliquid_trading_aler.Prelude.{
  ℕ, ◌≡◌, ◌≢◌, refl, Bool, true, not, none, some, List, [], ◌∷◌, All, arith, ◌==◌, select,
  Bool-cases, Option-cases, inl, inr,
}
use hyperliquid_trading_aler.Db.{Database}
use hyperliquid_trading_aler.Db.Rows.{Alert, AlertDeliveryAttempt}
use hyperliquid_trading_aler.Db.Table.{row, IsKeyed}
use hyperliquid_trading_aler.Db.Table.Numbered.{keyed-rows}
use hyperliquid_trading_aler.Dispatch.Outcome.{alert_key}
use hyperliquid_trading_aler.Api.Rules.{delete_cascade}
use hyperliquid_trading_aler.Api.Rules.Crud.{kept-alerts}
use hyperliquid_trading_aler.System.Audited.{has_success, IsAudited, IsOwned}

has_success-select :
    (keep : AlertDeliveryAttempt → Bool) (k : ℕ) (log : List AlertDeliveryAttempt)
    → ((t : AlertDeliveryAttempt) → t.alert_id ≡ k → keep t ≡ true)
    → has_success k log ≡ true
    → has_success k (select keep log) ≡ true
has_success-select keep k [] kept h = h
has_success-select keep k (t ∷ ts) kept h = elim (Bool-cases (t.alert_id == k)) [
  | inl here ↦
      (let e : t.alert_id ≡ k = ground arith in
        rw (kept t e) (ground (arith, has_success-select keep k ts kept)))
  | inr apart ↦ elim (Bool-cases (keep t)) [
    | inl in_ ↦ rw in_ (ground (arith, has_success-select keep k ts kept))
    | inr out ↦ rw out (has_success-select keep k ts kept (ground arith))
  ]
]

IsOwned-All :
    (alerts : List Alert) (log : List AlertDeliveryAttempt)
    → IsOwned log alerts
    → All (λ (t : AlertDeliveryAttempt). row alert_key t.alert_id alerts ≢ none) log
IsOwned-All alerts [] h = tt
IsOwned-All alerts (t ∷ ts) h = ((λ e. ground arith), IsOwned-All alerts ts (ground arith))

All-IsOwned :
    (alerts : List Alert) (log : List AlertDeliveryAttempt)
    → All (λ (t : AlertDeliveryAttempt). row alert_key t.alert_id alerts ≢ none) log
    → IsOwned log alerts
All-IsOwned alerts [] h = refl
All-IsOwned alerts (t ∷ ts) h = elim (Option-cases (row alert_key t.alert_id alerts)) [
  | inl gone ↦ absurd (h.0 gone)
  | inr (a, found) ↦ ground (arith, All-IsOwned alerts ts h.1)
]

-- Is the attempt's alert of another rule than `k`?
abbrev is_kept : ℕ → List Alert → AlertDeliveryAttempt → Bool
is_kept k alerts t = elim (row (λ (a : Alert). a.id) t.alert_id alerts) [
  | none ↦ true
  | some a ↦ not (a.rule_id == k)
]

deleted-All :
    (k : ℕ) (alerts : List Alert) (log : List AlertDeliveryAttempt) (xs : List Alert)
    → All (λ (a : Alert). row alert_key a.id alerts ≡ some a) xs
    → IsAudited log xs
    → IsAudited (select (is_kept k alerts) log) (select (λ (a : Alert). not (a.rule_id == k)) xs)
deleted-All k alerts log [] rows h = tt
deleted-All k alerts log (x ∷ xs) rows h = elim (Bool-cases (x.rule_id == k)) [
  | inl gone ↦ rw gone (deleted-All k alerts log xs rows.1 h.1)
  | inr stays ↦ rw stays (
    (λ e.
        has_success-select (is_kept k alerts) x.id log
          (λ t mine.
            let found : row alert_key t.alert_id alerts ≡ some x = rw mine rows.0 in ground arith)
          (h.0 e)),
    deleted-All k alerts log xs rows.1 h.1,
  )
]

pub delete-IsAudited :
    (k : ℕ) (db : Database)
    → IsKeyed alert_key db.alerts
    → IsAudited db.attempts db.alerts
    → IsAudited (delete_cascade k db).attempts (delete_cascade k db).alerts
unfolding delete_cascade
delete-IsAudited k db keyed =
    deleted-All k db.alerts db.attempts db.alerts (keyed-rows alert_key db.alerts keyed)

pub delete-IsOwned :
    (k : ℕ) (db : Database)
    → IsOwned db.attempts db.alerts
    → IsOwned (delete_cascade k db).attempts (delete_cascade k db).alerts
unfolding delete_cascade
delete-IsOwned k db h =
    All-IsOwned _ _ (kept-alerts k db.alerts db.attempts (IsOwned-All db.alerts db.attempts h))
