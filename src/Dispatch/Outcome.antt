-- ===== src/Dispatch/Outcome.antt =====
-- What one call of `AlertDispatcher.dispatch` does (worker/dispatch/dispatcher.py).
use hyperliquid_trading_aler.Prelude.{
  ℕ, ◌+◌, ◌≡◌, refl, Bool, ◌&&◌, ◌||◌, some, List, ◌∷◌, arith, ok, is_given, length, if◌then◌else◌,
  none,
}
use hyperliquid_trading_aler.Db.{Env, World, Post}
use hyperliquid_trading_aler.Db.Rows.{Rule, Alert, pending, delivered}
use hyperliquid_trading_aler.Db.Table.{row, update, row-update_self, update-update}
use hyperliquid_trading_aler.Dispatch.{dispatch_by, dispatch}
use hyperliquid_trading_aler.Dispatch.Senders.{url_text, discord_payload, generic_payload}

abbrev pub alert_key : Alert → ℕ
alert_key a = a.id

abbrev pub rule_key : Rule → ℕ
rule_key r = r.id

-- The two POSTs that a dispatch can make.
abbrev pub discord_post : Alert → Rule → Post
discord_post a r = record { url = url_text r.discord_webhook_url; payload = discord_payload a r }

abbrev pub generic_post : Alert → Rule → Post
generic_post a r = record { url = url_text r.generic_webhook_url; payload = generic_payload a r }

module _ (env : Env) (a : Alert) (r : Rule) (sent : List Post) where
  abbrev pub discord_took : Bool
  discord_took = is_given r.discord_webhook_url && env.accepts sent (discord_post a r)

  -- What was sent once Discord's turn is over.
  abbrev pub after_discord : List Post
  after_discord = if is_given r.discord_webhook_url then discord_post a r ∷ sent else sent

  abbrev pub generic_took : Bool
  generic_took = is_given r.generic_webhook_url && env.accepts after_discord (generic_post a r)

  abbrev pub after_both : List Post
  after_both =
      if discord_took
      then after_discord
      else if is_given r.generic_webhook_url
      then generic_post a r ∷ after_discord
      else after_discord

  abbrev pub took : Bool
  took = discord_took || generic_took

-- The alert's row after a dispatch that began with this reading of the clock.
abbrev pub dispatched : Env → Alert → Rule → World → Alert
dispatched env a r w = record a {
  delivery_status = if took env a r w.sent then delivered else pending;
  delivery_attempts = a.delivery_attempts + 1;
  last_delivery_attempt = some (env.clock w.ticks);
}

module _ (env : Env) (a : Alert) (r : Rule) (w : World) where
  pub dispatch_by_alerts :
      (dispatch_by env a r w).1.db.alerts ≡ update alert_key (dispatched env a r w) w.db.alerts
  unfolding dispatch_by discord_payload generic_payload
  dispatch_by_alerts = ground (
    arith,
    update-update alert_key (record a { last_delivery_attempt = some (env.clock w.ticks) })
        (dispatched env a r w) w.db.alerts refl,
  )

  pub dispatch_by_sent : (dispatch_by env a r w).1.sent ≡ after_both env a r w.sent
  unfolding dispatch_by
  dispatch_by_sent = ground arith

  pub dispatch_by_ok : (dispatch_by env a r w).0 ≡ ok tt
  unfolding dispatch_by
  dispatch_by_ok = ground arith

  pub dispatch_by_durable : (dispatch_by env a r w).1.committed ≡ (dispatch_by env a r w).1.db
  unfolding dispatch_by
  dispatch_by_durable = ground arith

  pub dispatch_by_audit :
      length (dispatch_by env a r w).1.db.attempts + length w.sent
      ≡ length w.db.attempts + length (dispatch_by env a r w).1.sent
  unfolding dispatch_by
  dispatch_by_audit = ground arith

module _ (env : Env) where
  pub dispatch-missing :
      (a : Alert) (w : World)
      → row rule_key a.rule_id w.db.rules ≡ none
      → dispatch env a w ≡ (ok tt, w)
  unfolding dispatch
  dispatch-missing a w gone = ground arith

module _ (env : Env) (a : Alert) {r : Rule} (w : World)
    (found : row rule_key a.rule_id w.db.rules ≡ some r) where
  pub dispatch-found : dispatch env a w ≡ dispatch_by env a r w
  unfolding dispatch
  dispatch-found = ground arith

  -- A dispatch of an alert whose row and rule are in the database returns without an exception. It
  -- leaves the alert delivered if Discord or the generic webhook took the alert, and pending if
  -- neither did, with one attempt more and the time read at the start; all of it is committed.
  -- Discord is tried first, and the generic webhook is sent nothing once Discord took the alert.
  -- Each POST that was made has one new delivery attempt record.
  pub dispatch_outcome :
      {old : Alert}
      → row alert_key a.id w.db.alerts ≡ some old
      → let (result, w') = dispatch env a w in
        (result ≡ ok tt)
        × (row alert_key a.id w'.db.alerts ≡ some (dispatched env a r w))
        × (w'.committed ≡ w'.db)
        × (w'.sent ≡ after_both env a r w.sent)
        × (length w'.db.attempts + length w.sent ≡ length w.db.attempts + length w'.sent)
  dispatch_outcome known = rw dispatch-found (
    dispatch_by_ok env a r w,
    rw dispatch_by_alerts (row-update_self alert_key (dispatched env a r w) w.db.alerts known),
    dispatch_by_durable env a r w,
    dispatch_by_sent env a r w,
    dispatch_by_audit env a r w,
  )
