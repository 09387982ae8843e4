-- ===== src/System/Sound.antt =====
-- What holds of the database whatever has run: the invariant of the system.
use hyperliquid_trading_aler.System.Audited.{IsAudited, IsOwned, Logs, Logs-IsAudited, Logs-IsOwned}
use hyperliquid_trading_aler.Prelude.{
  ◌≤◌, ◌≡◌, ◌≢◌, ap, subst, ◌∙◌, inl, inr, Bool-cases, none, some, List, [], ◌∷◌, arith, ◌==◌, All,
  refl, sym,
}
use hyperliquid_trading_aler.Db.{World, Database}
use hyperliquid_trading_aler.Db.Rows.{Rule, Alert}
use hyperliquid_trading_aler.Db.Table.{row, update}
use hyperliquid_trading_aler.Db.Table.Numbered.{IsNumbered, IsNumbered-weaken, update-IsNumbered}
use hyperliquid_trading_aler.Dispatch.Outcome.{alert_key, rule_key}
use hyperliquid_trading_aler.Evaluate.Engine.Windows.{SameWindow, update-IsUnique}
use hyperliquid_trading_aler.Worker.Invariant.{IsConsistent}

-- The rule of every alert is stored.
abbrev pub HaveRules : List Rule → List Alert → Type 0
HaveRules rules = All (λ (a : Alert). row rule_key a.rule_id rules ≢ none)

-- Everything is committed, the unique constraints hold, identifiers are distinct and were drawn before,
-- no alert is without its rule and no attempt without its alert, and every delivered alert has a
-- successful attempt.
pub record IsSound (w : World) : Type 0 where
  pub consistent : IsConsistent w
  pub alerts : IsNumbered alert_key w.fresh w.db.alerts
  pub rules : IsNumbered rule_key w.fresh w.db.rules
  pub linked : HaveRules w.db.rules w.db.alerts
  pub owned : IsOwned w.db.attempts w.db.alerts
  pub audited : IsAudited w.db.attempts w.db.alerts

-- What a step that only writes to stored alerts does.
pub record Writes (w : World) (b : Alert) (w' : World) : Type 0 where
  pub alerts : w'.db.alerts ≡ update alert_key b w.db.alerts
  pub rules : w'.db.rules ≡ w.db.rules
  pub candles : w'.db.candles ≡ w.db.candles
  pub durable : w'.committed ≡ w'.db
  pub fresh : w.fresh ≤ w'.fresh
  pub logs : Logs b w.db.attempts w'.db.attempts

update-HaveRules :
    (rules : List Rule) (b : Alert) (t : List Alert) {old : Alert}
    → row alert_key b.id t ≡ some old
    → old.rule_id ≡ b.rule_id
    → HaveRules rules t
    → HaveRules rules (update alert_key b t)
update-HaveRules rules b [] known same h = tt
update-HaveRules rules b (x ∷ t) {old} known same h = elim (Bool-cases (x.id == b.id)) [
  | inl here ↦
      (let e : x ≡ old = ground arith in
        rw here (
          subst (λ k. row rule_key k rules ≢ none) (ap (λ (y : Alert). y.rule_id) e ∙ same) h.0,
          h.1,
        ))
  | inr differs ↦ rw differs (h.0, update-HaveRules rules b t {old = old} (ground arith) same h.1)
]

pub Writes-IsSound :
    (w : World) (b : Alert) (w' : World) {old : Alert}
    → row alert_key b.id w.db.alerts ≡ some old
    → SameWindow old b
    → Writes w b w'
    → IsSound w
    → IsSound w'
Writes-IsSound w b w' known same writes sound = record {
  consistent = record {
    durable = writes.durable;
    alerts = rw writes.alerts (update-IsUnique b w.db.alerts known same sound.consistent.alerts);
    candles = rw writes.candles sound.consistent.candles;
  };
  alerts = rw writes.alerts (
      IsNumbered-weaken alert_key w.fresh w'.fresh _ writes.fresh
        (update-IsNumbered alert_key w.fresh b w.db.alerts sound.alerts));
  rules =
      rw writes.rules
        (IsNumbered-weaken rule_key w.fresh w'.fresh w.db.rules writes.fresh sound.rules);
  linked =
      rw (writes.rules, writes.alerts)
        (update-HaveRules w.db.rules b w.db.alerts known same.rule sound.linked);
  owned = rw writes.alerts (Logs-IsOwned writes.logs w.db.alerts known sound.owned);
  audited = rw writes.alerts (Logs-IsAudited writes.logs w.db.alerts sound.audited);
}

-- A step that leaves the alerts, the rules and the candles alone.
pub record Leaves (w w' : World) : Type 0 where
  pub alerts : w'.db.alerts ≡ w.db.alerts
  pub rules : w'.db.rules ≡ w.db.rules
  pub attempts : w'.db.attempts ≡ w.db.attempts
  pub fresh : w.fresh ≤ w'.fresh

pub Leaves-IsSound : (w w' : World) → Leaves w w' → IsConsistent w' → IsSound w → IsSound w'
Leaves-IsSound w w' leaves consistent sound = record {
  consistent = consistent;
  alerts =
      rw leaves.alerts
        (IsNumbered-weaken alert_key w.fresh w'.fresh w.db.alerts leaves.fresh sound.alerts);
  rules =
      rw leaves.rules
        (IsNumbered-weaken rule_key w.fresh w'.fresh w.db.rules leaves.fresh sound.rules);
  linked = rw (leaves.alerts, leaves.rules) sound.linked;
  owned = rw (leaves.attempts, leaves.alerts) sound.owned;
  audited = rw (leaves.attempts, leaves.alerts) sound.audited;
}

-- A commit or a rollback of a world in which everything is committed.
abbrev pub with_both : World → Database → World
with_both w db = record w { db = db; committed = db }

pub durable-IsSound :
    (w : World) → IsSound w → IsSound (with_both w w.db) × IsSound (with_both w w.committed)
durable-IsSound w sound =
    let committed_ : IsSound (with_both w w.db) = record {
      consistent = record {
        durable = refl;
        alerts = sound.consistent.alerts;
        candles = sound.consistent.candles;
      };
      alerts = sound.alerts;
      rules = sound.rules;
      linked = sound.linked;
      owned = sound.owned;
      audited = sound.audited;
    } in
    (committed_, subst (λ db. IsSound (with_both w db)) (sym sound.consistent.durable) committed_)
