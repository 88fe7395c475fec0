-- ===== src/Alerts/Safe.antt =====
-- What is pending in the router of crates/alerts/src/lib.rs.
use insider_trader.Prelude.{
  ℕ, ◌≤◌, ◌≡◌, refl, sym, subst, arith, ℤ, pos, ltb_ℤ, leb, ltb, ◌==◌, false, ◌&&◌, ◌||◌, not, some,
  [], length, is_some_and, Text, ok, fail_if-eq-ok, Bool-cases, Result-cases, inl, inr,
}
use insider_trader.Maps.{
  text_key, Map, key_eq, key_eq_iff, get, insert, remove, contains_key, get-insert, get-remove,
  length-insert, length-remove,
}
use insider_trader.Alerts.{
  Channel, in_app, native, sound, webhook, Delivery, delivery_key, Alert, invalid_alert,
  future_timestamp, sensitive_external, webhook_not_allowed, AlertRouter, new_router,
  is_allowed_url, allow_webhook, reconfigure, saturating_sub_i64, is_external, is_forbidden,
  admissible, deliver, route_checked, route, acknowledge, acknowledge_channel,
}

pub data Step : AlertRouter → AlertRouter → Type 0 where
  allows : (r : AlertRouter) (url : Text) → Step r (allow_webhook r url).1
  configures :
      (r : AlertRouter) (cooldown : ℤ) (bound : ℕ) → Step r (reconfigure r cooldown bound).1
  routes :
      (r : AlertRouter) (alert : Alert) (channel : Channel) (now : ℤ)
      → Step r (route r alert channel now).1
  acknowledges : (r : AlertRouter) (id : Text) → Step r (acknowledge r id).1
  delivers :
      (r : AlertRouter) (id : Text) (channel : Channel)
      → Step r (acknowledge_channel r id channel).1

pub data Reach : AlertRouter → Type 0 where
  start :
      (cooldown : ℤ) (bound : ℕ) (r : AlertRouter) → new_router cooldown bound ≡ some r → Reach r
  step : (r t : AlertRouter) → Reach r → Step r t → Reach t

-- A delivery under its own key, of an alert that its channel may carry.
pub record IsAllowed (allowed : Map Text (Unit {0})) (key : Delivery) (delivery : Alert × Channel)
    : Type 0 where
  pub own_key : key ≡ (delivery.0.alert_id, delivery.1)
  pub discreet : (delivery.0.sensitive && is_external delivery.1) ≡ false
  pub listed : is_forbidden allowed delivery.1 ≡ false

pub record IsSafe (r : AlertRouter) : Type 0 where
  pub bound : length r.pending ≤ r.max_pending
  pub deliveries :
      (k : Delivery) (d : Alert × Channel)
      → get k r.pending ≡ some d
      → IsAllowed r.allowed_webhooks k d

admissible-IsAllowed :
    (r : AlertRouter) (alert : Alert) (channel : Channel) (now : ℤ)
    → admissible r alert channel now ≡ ok tt
    → IsAllowed r.allowed_webhooks (alert.alert_id, channel) (alert, channel)
unfolding admissible
admissible-IsAllowed r alert channel now h =
    let (a, h1) = fail_if-eq-ok _ invalid_alert _ h in
    let (b, h2) = fail_if-eq-ok _ future_timestamp _ h1 in
    let (c, h3) = fail_if-eq-ok _ sensitive_external _ h2 in
    let (d, h4) = fail_if-eq-ok _ webhook_not_allowed _ h3 in
    record { own_key = refl; discreet = c; listed = d }

allowed_more :
    (allowed : Map Text (Unit {0})) (url : Text) (channel : Channel)
    → is_forbidden allowed channel ≡ false
    → is_forbidden (insert url tt allowed) channel ≡ false
allowed_more allowed url (webhook u) h = ground (arith, h, get-insert u url tt allowed)
allowed_more allowed url in_app h = refl
allowed_more allowed url native h = refl
allowed_more allowed url sound h = refl

allow_webhook-IsSafe : (r : AlertRouter) (url : Text) → IsSafe r → IsSafe (allow_webhook r url).1
unfolding allow_webhook
allow_webhook-IsSafe r url s = elim (Bool-cases (not (is_allowed_url url))) [
  | inl bad ↦ rw bad s
  | inr good ↦ rw good (record {
    bound = s.bound;
    deliveries = λ k d h.
        let a = s.deliveries k d h in
        record {
          own_key = a.own_key;
          discreet = a.discreet;
          listed = allowed_more r.allowed_webhooks url d.1 a.listed;
        };
  })
]

reconfigure-IsSafe :
    (r : AlertRouter) (cooldown : ℤ) (bound : ℕ)
    → IsSafe r
    → IsSafe (reconfigure r cooldown bound).1
unfolding reconfigure
reconfigure-IsSafe r cooldown bound s =
    elim (Bool-cases (ltb_ℤ cooldown (pos 0) || (bound == 0) || ltb bound (length r.pending))) [
      | inl bad ↦ rw bad s
      | inr good ↦ rw good (record { bound = ground (arith, good); deliveries = s.deliveries })
    ]

deliver-IsSafe :
    (r : AlertRouter) (alert : Alert) (channel : Channel) (now : ℤ)
    → IsAllowed r.allowed_webhooks (alert.alert_id, channel) (alert, channel)
    → IsSafe r
    → IsSafe (deliver r alert channel now).1
deliver-IsSafe r alert channel now a s =
    elim (Bool-cases (
      is_some_and (get (alert.dedupe_key, channel) r.last_routed)
        (λ last. ltb_ℤ (saturating_sub_i64 now last) r.cooldown_ms))) [
          | inl again ↦ rw again s
          | inr new ↦ elim (Bool-cases (leb r.max_pending (length r.pending))) [
            | inl at_bound ↦ rw (new, at_bound) s
            | inr room ↦
                let key : Delivery = (alert.alert_id, channel) in
                rw (new, room)
                  (record {
                    bound = ground (arith, room, length-insert key (alert, channel) r.pending);
                    deliveries = λ k d h. elim (Bool-cases (key_eq k key)) [
                      | inl same ↦
                          let this : (alert, channel) ≡ d =
                            ground (arith, h, same, get-insert k key (alert, channel) r.pending) in
                          subst (IsAllowed r.allowed_webhooks k) this (
                            subst (λ j. IsAllowed r.allowed_webhooks j (alert, channel))
                              (sym ((key_eq_iff k key).0 same)) a)
                      | inr other ↦
                          s.deliveries k d
                            (ground (arith, h, other, get-insert k key (alert, channel) r.pending))
                    ];
                  })
          ]
        ]

route-IsSafe :
    (r : AlertRouter) (alert : Alert) (channel : Channel) (now : ℤ)
    → IsSafe r
    → IsSafe (route r alert channel now).1
unfolding route
route-IsSafe r alert channel now s = elim (Result-cases (admissible r alert channel now)) [
  | inl (e, bad) ↦ subst (λ x. IsSafe (route_checked r alert channel now x).1) (sym bad) s
  | inr (u, good) ↦
      subst (λ x. IsSafe (route_checked r alert channel now x).1) (sym good)
        (deliver-IsSafe r alert channel now (admissible-IsAllowed r alert channel now good) s)
]

remove-IsSafe :
    (r : AlertRouter) (key : Delivery) (acknowledged : Map Text (Unit {0}))
    → IsSafe r
    → IsSafe (record r { pending = remove key r.pending; acknowledged = acknowledged })
remove-IsSafe r key acknowledged s = record {
  bound = omega (arith, s.bound, length-remove key r.pending);
  deliveries = λ k d h. elim (Bool-cases (key_eq k key)) [
    | inl same ↦ absurd (ground (arith, h, same, get-remove k key r.pending))
    | inr other ↦ s.deliveries k d (ground (arith, h, other, get-remove k key r.pending))
  ];
}

acknowledge-IsSafe : (r : AlertRouter) (id : Text) → IsSafe r → IsSafe (acknowledge r id).1
unfolding acknowledge
acknowledge-IsSafe r id s = elim (Bool-cases (contains_key (id, in_app) r.pending)) [
  | inl there ↦ rw there (remove-IsSafe r (id, in_app) (insert id tt r.acknowledged) s)
  | inr absent ↦ rw absent s
]

acknowledge_channel-IsSafe :
    (r : AlertRouter) (id : Text) (channel : Channel)
    → IsSafe r
    → IsSafe (acknowledge_channel r id channel).1
unfolding acknowledge_channel
acknowledge_channel-IsSafe r id channel s =
    elim (Bool-cases (contains_key (id, channel) r.pending)) [
      | inl there ↦ rw there (remove-IsSafe r (id, channel) _ s)
      | inr absent ↦ rw absent s
    ]

-- In every state that the calls reach, no more deliveries are pending than the bound allows, each is
-- under its own key, none of a sensitive alert is on an external channel, and each webhook is one
-- that was allowed.
pub Reach-IsSafe : (r : AlertRouter) → Reach r → IsSafe r
unfolding new_router get
Reach-IsSafe r (start cooldown bound _ h) =
    let fresh : AlertRouter = record {
      cooldown_ms = cooldown;
      max_pending = bound;
      allowed_webhooks = [];
      last_routed = [];
      pending = [];
      acknowledged = [];
    } in
    let made : r ≡ fresh = ground (arith, h) in
    subst IsSafe (sym made) (record { bound = omega arith; deliveries = λ k d e. cc })
Reach-IsSafe _ (step r t reached (allows _ url)) =
    allow_webhook-IsSafe r url (Reach-IsSafe r reached)
Reach-IsSafe _ (step r t reached (configures _ cooldown bound)) =
    reconfigure-IsSafe r cooldown bound (Reach-IsSafe r reached)
Reach-IsSafe _ (step r t reached (routes _ alert channel now)) =
    route-IsSafe r alert channel now (Reach-IsSafe r reached)
Reach-IsSafe _ (step r t reached (acknowledges _ id)) =
    acknowledge-IsSafe r id (Reach-IsSafe r reached)
Reach-IsSafe _ (step r t reached (delivers _ id channel)) =
    acknowledge_channel-IsSafe r id channel (Reach-IsSafe r reached)
