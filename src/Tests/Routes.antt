-- ===== src/Tests/Routes.antt =====
-- Alerts that are routed and acknowledged.
use insider_trader.Prelude.{
  pos, ◌-ℤ◌, ◌+ℤ◌, in_i64, is_whitespace, ◌≡◌, refl, true, false, some, [], codes, Text,
}
use insider_trader.Ids.{strip_prefix, utf8_length}
use insider_trader.Maps.{text_key, text_cmp, get, insert, remove}
use insider_trader.Alerts.{
  Alert, Severity, in_app, webhook, AlertRouter, new_router, allow_webhook, is_allowed_url,
  split_scheme, authority_of, route, admissible, acknowledge, channel_cmp, delivery_cmp,
  is_acknowledged,
}
use insider_trader.Alerts.Safe.{allows, routes, start, step, IsSafe, Reach-IsSafe}

abbrev alert : Text → Alert
alert id = record {
  alert_id = id;
  dedupe_key = codes "risk:halt";
  source = codes "risk-engine";
  occurred_ms = pos 10;
  severity = Severity.critical;
  message = codes "risk halted";
  sensitive = false;
}

abbrev router : AlertRouter
router = record {
  cooldown_ms = pos 1_000;
  max_pending = 4;
  allowed_webhooks = [];
  last_routed = [];
  pending = [];
  acknowledged = [];
}

abbrev hook : Text
hook = codes "https://hooks.example/a"

hook_allowed : is_allowed_url hook ≡ true
unfolding is_allowed_url split_scheme authority_of strip_prefix utf8_length is_whitespace text_cmp
hook_allowed = refl

abbrev routed : AlertRouter
routed = (route (allow_webhook router hook).1 (alert (codes "a")) (webhook hook) (pos 20)).1

made : new_router (pos 1_000) 4 ≡ some router
unfolding new_router
made = refl

Reach-IsSafe_example : IsSafe routed
Reach-IsSafe_example = Reach-IsSafe routed (
    step _ _ (step _ _ (start (pos 1_000) 4 router made) (allows router hook))
      (routes _ (alert (codes "a")) (webhook hook) (pos 20)))

-- An alert that is routed again after it was acknowledged is pending and counts as acknowledged.
again :
    (is_acknowledged
      (route
        (acknowledge (route router (alert (codes "a")) in_app (pos 20)).1 (codes "a")).1
        (alert (codes "a"))
        in_app
        (pos 2_000)).1
      (codes "a"))
    ≡ true
unfolding route admissible acknowledge get insert remove text_cmp channel_cmp delivery_cmp
    is_whitespace ◌-ℤ◌ in_i64 ◌+ℤ◌
again = refl
