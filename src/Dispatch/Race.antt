-- ===== src/Dispatch/Race.antt =====
-- A retry turn between the commit of a new alert and its dispatch (worker/dispatch/: the worker and the
-- scheduler are two tasks with two sessions).
use hyperliquid_trading_aler.Dispatch.Senders.{discord_payload}
use hyperliquid_trading_aler.Prelude.{
  ◌≡◌, ◌∙◌, true, false, none, some, List, ◌∷◌, arith, is_given, ap, Result,
}
use hyperliquid_trading_aler.Config.{WorkerSettings}
use hyperliquid_trading_aler.Db.{Env, World, Post, Database}
use hyperliquid_trading_aler.Db.Rows.{Rule, Alert}
use hyperliquid_trading_aler.Db.Table.{row}
use hyperliquid_trading_aler.Dispatch.{dispatch}
use hyperliquid_trading_aler.Dispatch.Outcome.{
  rule_key, discord_post, after_both, dispatch-found, dispatch_by_sent,
}
use hyperliquid_trading_aler.Dispatch.Retry.{is_waiting, process_alert}
use hyperliquid_trading_aler.Dispatch.Retry.Turn.{
  waits, ready, ready_db, turn_now, process-attempts, attempt_sent, attempt_rules,
}

module _ (env : Env) (cfg : WorkerSettings) where
  new_waits : (a : Alert) (w : World) → a.last_delivery_attempt ≡ none → waits env cfg a w ≡ false
  unfolding is_waiting
  new_waits a w new = ground arith

  discord_takes :
      (a : Alert) (r : Rule) (sent : List Post)
      → is_given r.discord_webhook_url ≡ true
      → env.accepts sent (discord_post a r) ≡ true
      → after_both env a r sent ≡ discord_post a r ∷ sent
  unfolding discord_payload
  discord_takes a r sent given takes = ground arith

  -- If the retry scheduler comes to an alert that was never tried after the worker has committed it
  -- and before the worker dispatches it, and Discord takes the POST whenever it is sent, then
  -- the alert is sent to Discord twice: the two POSTs are the same.
  pub sent_twice :
      (a : Alert) (r : Rule) (w : World)
      → a.last_delivery_attempt ≡ none
      → row rule_key a.rule_id w.db.rules ≡ some r
      → is_given r.discord_webhook_url ≡ true
      → ((s : List Post) → env.accepts s (discord_post a r) ≡ true)
      → let w1 = (process_alert env cfg a w).1 in
        (dispatch env a w1).1.sent ≡ discord_post a r ∷ discord_post a r ∷ w.sent
  sent_twice a r w new found given takes =
      let v = ready env cfg a w in
      let now = turn_now env cfg a w in
      let (same, quiet, _) = ready_db env cfg a w in
      let due = new_waits a w new in
      let first : (process_alert env cfg a w).1.sent ≡ discord_post a r ∷ w.sent =
        ap (λ (out : Result (Unit {0}) × World). out.1.sent)
          (process-attempts env cfg a w due found)
        ∙ attempt_sent env cfg a r now v
        ∙ ap (after_both env a r) quiet
        ∙ discord_takes a r w.sent given (takes w.sent) in
      let rules : (process_alert env cfg a w).1.db.rules ≡ w.db.rules =
        ap (λ (out : Result (Unit {0}) × World). out.1.db.rules)
          (process-attempts env cfg a w due found)
        ∙ attempt_rules env cfg a r now v
        ∙ ap (λ (db : Database). db.rules) same in
      let w1 = (process_alert env cfg a w).1 in
      ap (λ (out : Result (Unit {0}) × World). out.1.sent)
        (dispatch-found env a w1 (ap (λ (t : List Rule). row rule_key a.rule_id t) rules ∙ found))
      ∙ dispatch_by_sent env a r w1
      ∙ ap (after_both env a r) first
      ∙ discord_takes a r (discord_post a r ∷ w.sent) given (takes (discord_post a r ∷ w.sent))
