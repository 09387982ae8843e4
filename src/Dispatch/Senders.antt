-- ===== src/Dispatch/Senders.antt =====
-- worker/dispatch/discord.py and worker/dispatch/webhook.py: build the payload and POST it. Both
-- catch every exception and report failure as False.
use hyperliquid_trading_aler.Prelude.{
  ℕ, Bool, true, false, Option, none, some, String, is_given, if◌then◌else◌,
}
use hyperliquid_trading_aler.Db.{Env, Payload, M, pure, except, ◌>>◌, post}
use hyperliquid_trading_aler.Prelude.Int.{ℤ, pos}
use hyperliquid_trading_aler.Db.Rows.{Rule, Alert}

abbrev pub url_text : Option String → String
url_text none = ""
url_text (some u) = u

unfoldable pub discord_payload : Alert → Rule → Payload
discord_payload alert rule =
    Payload.discord_embed rule.name alert.symbol alert.trigger_value alert.rule_type
      alert.triggered_at

-- `float(alert.trigger_value) if alert.trigger_value else None`: zero is sent as null.
abbrev pub sent_value : Option ℤ → Option ℤ
sent_value (some (pos ℕ.zero)) = none
sent_value v = v

unfoldable pub generic_payload : Alert → Rule → Payload
generic_payload alert rule =
    Payload.generic_json alert.id rule.id rule.name alert.symbol alert.rule_type
      (sent_value alert.trigger_value) alert.triggered_at

module _ (env : Env) where
  unfoldable pub send_discord_webhook : Alert → Rule → M Bool
  unfolding discord_payload
  send_discord_webhook alert rule =
      if is_given rule.discord_webhook_url
      then except
          (do post env (url_text rule.discord_webhook_url) (discord_payload alert rule); pure true)
          (λ _. pure false)
      else pure false

  unfoldable pub send_generic_webhook : Alert → Rule → M Bool
  unfolding generic_payload
  send_generic_webhook alert rule =
      if is_given rule.generic_webhook_url
      then except
          (do post env (url_text rule.generic_webhook_url) (generic_payload alert rule); pure true)
          (λ _. pure false)
      else pure false
