-- ===== src/Alerts.antt =====
-- crates/alerts/src/lib.rs: the routing of alerts to channels. The sets of the source are maps to the
-- unit type.
pub mod Safe
use insider_trader.Prelude.{
  then_with, ℕ, compare, Ordering, ltb, leb, ◌==◌, ℤ, pos, ltb_ℤ, ◌-ℤ◌, ◌^◌, in_i64, ◌≡◌, ◌↔◌, refl,
  arith, Bool, true, false, ◌&&◌, ◌||◌, not, Option, none, some, List, [], ◌∷◌, length, any,
  is_some, is_some_and, if◌then◌else◌, ap, ◌-◌, neg, is_empty, codes, is_whitespace, Text, is_blank,
  Result, ok, err, fail_if, ◌>>=◌, ◌>>◌,
}
use insider_trader.Ids.{strip_prefix, utf8_length}
use insider_trader.Maps.{
  Key, Map, text_key, text_cmp, text-cmp_eq, nat-cmp_eq, key_eq, get, insert, remove, contains_key,
  keys,
}

pub data Severity : Type 0 where
  info warning critical : Severity

pub data Channel : Type 0 where
  in_app native sound : Channel
  webhook : Text → Channel

-- The derived order of channels, and of pairs of an id and a channel.
abbrev pub channel_rank : Channel → ℕ
channel_rank in_app = 0
channel_rank native = 1
channel_rank sound = 2
channel_rank (webhook url) = 3

abbrev pub channel_url : Channel → Text
channel_url (webhook url) = url
channel_url _ = []

unfoldable pub channel_cmp : Channel → Channel → Ordering
channel_cmp a b =
    then_with (compare (channel_rank a) (channel_rank b)) (text_cmp (channel_url a) (channel_url b))

channel_of_parts :
    (a b : Channel) → channel_rank a ≡ channel_rank b → channel_url a ≡ channel_url b → a ≡ b
channel_of_parts in_app b h k = ground (arith, h)
channel_of_parts native b h k = ground (arith, h)
channel_of_parts sound b h k = ground (arith, h)
channel_of_parts (webhook u) (webhook v) h k = ap webhook k
channel_of_parts (webhook u) in_app h k = absurd (omega (arith, h))
channel_of_parts (webhook u) native h k = absurd (omega (arith, h))
channel_of_parts (webhook u) sound h k = absurd (omega (arith, h))

then_with-eq :
    (a b : Ordering) → (then_with a b ≡ Ordering.eq) ↔ ((a ≡ Ordering.eq) × (b ≡ Ordering.eq))
then_with-eq Ordering.eq b = ((λ h. (refl, h)), (λ h. h.1))
then_with-eq Ordering.lt b = ((λ h. cc), (λ h. cc))
then_with-eq Ordering.gt b = ((λ h. cc), (λ h. cc))

pub channel-cmp_eq : (a b : Channel) → (channel_cmp a b ≡ Ordering.eq) ↔ (a ≡ b)
unfolding channel_cmp
channel-cmp_eq a b =
    let ranks = compare (channel_rank a) (channel_rank b) in
    let urls = text_cmp (channel_url a) (channel_url b) in
    (
      (λ h.
          let (r, u) = (then_with-eq ranks urls).0 h in
          channel_of_parts a b ((nat-cmp_eq (channel_rank a) (channel_rank b)).0 r)
            ((text-cmp_eq (channel_url a) (channel_url b)).0 u)),
      (λ e. (then_with-eq ranks urls).1 (
        (nat-cmp_eq (channel_rank a) (channel_rank b)).1 (ap channel_rank e),
        (text-cmp_eq (channel_url a) (channel_url b)).1 (ap channel_url e),
      )),
    )

abbrev pub Delivery : Type 0
Delivery = Text × Channel

unfoldable pub delivery_cmp : Delivery → Delivery → Ordering
delivery_cmp a b = then_with (text_cmp a.0 b.0) (channel_cmp a.1 b.1)

pub delivery-cmp_eq : (a b : Delivery) → (delivery_cmp a b ≡ Ordering.eq) ↔ (a ≡ b)
unfolding delivery_cmp
delivery-cmp_eq a b =
    let ids = text_cmp a.0 b.0 in
    let channels = channel_cmp a.1 b.1 in
    (
      (λ h.
          let (i, c) = (then_with-eq ids channels).0 h in
          pair_of ((text-cmp_eq a.0 b.0).0 i) ((channel-cmp_eq a.1 b.1).0 c)),
      (λ e. (then_with-eq ids channels).1 (
        (text-cmp_eq a.0 b.0).1 (ap (λ d. d.0) e),
        (channel-cmp_eq a.1 b.1).1 (ap (λ d. d.1) e),
      )),
    )
  where
    pair_of : {a b : Delivery} → a.0 ≡ b.0 → a.1 ≡ b.1 → a ≡ b
    pair_of h k = cc

instance abbrev pub delivery_key : Key Delivery
delivery_key = record { cmp = delivery_cmp; cmp_eq = delivery-cmp_eq }

pub record Alert : Type 0 where
  pub alert_id : Text
  pub dedupe_key : Text
  pub source : Text
  pub occurred_ms : ℤ
  pub severity : Severity
  pub message : Text
  pub sensitive : Bool

pub data AlertError : Type 0 where
  invalid_alert future_timestamp sensitive_external webhook_not_allowed capacity : AlertError

pub data RouteOutcome : Type 0 where
  queued suppressed : RouteOutcome

pub record AlertRouter : Type 0 where
  pub cooldown_ms : ℤ
  pub max_pending : ℕ
  pub allowed_webhooks : Map Text (Unit {0})
  pub last_routed : Map Delivery ℤ
  pub pending : Map Delivery (Alert × Channel)
  pub acknowledged : Map Text (Unit {0})

unfoldable pub new_router : ℤ → ℕ → Option AlertRouter
new_router cooldown_ms max_pending =
    if not (ltb_ℤ cooldown_ms (pos 0)) && ltb 0 max_pending
    then some (record {
      cooldown_ms = cooldown_ms;
      max_pending = max_pending;
      allowed_webhooks = [];
      last_routed = [];
      pending = [];
      acknowledged = [];
    })
    else none

abbrev pub max_webhook_url_bytes : ℕ
max_webhook_url_bytes = 2_048

-- `split_once("://")`.
unfoldable pub split_scheme : Text → Option (Text × Text)
split_scheme [] = none
split_scheme (c ∷ cs) =
    let rest = split_scheme cs in
    elim (strip_prefix (codes "://") (c ∷ cs)) [
      | some remainder ↦ some ([], remainder)
      | none ↦ elim rest [ none ↦ none | some split ↦ some (c ∷ split.0, split.1) ]
    ]

-- The text before the first slash, question mark or hash.
unfoldable pub authority_of : Text → Text
authority_of [] = []
authority_of (c ∷ cs) =
    let rest = authority_of cs in if (c == 47) || (c == 63) || (c == 35) then [] else c ∷ rest

unfoldable pub is_allowed_url : Text → Bool
is_allowed_url url =
    if ltb max_webhook_url_bytes (utf8_length url) then false else elim (split_scheme url) [
      | none ↦ false
      | some split ↦
          key_eq split.0 (codes "https")
          && not (is_blank split.1)
          && not (is_empty (authority_of split.1))
          && not (any is_whitespace split.1)
          && not (any (λ c. c == 64) split.1)
    ]

unfoldable pub allow_webhook : AlertRouter → Text → Bool × AlertRouter
allow_webhook r url = if not (is_allowed_url url) then (false, r) else (
  not (contains_key url r.allowed_webhooks),
  record r { allowed_webhooks = insert url tt r.allowed_webhooks },
)

unfoldable pub reconfigure : AlertRouter → ℤ → ℕ → Result AlertError (Unit {0}) × AlertRouter
reconfigure r cooldown_ms max_pending =
    if ltb_ℤ cooldown_ms (pos 0) || (max_pending == 0) || ltb max_pending (length r.pending)
    then (err capacity, r)
    else (ok tt, record r { cooldown_ms = cooldown_ms; max_pending = max_pending })

-- `i64::saturating_sub`.
abbrev pub saturating_sub_i64 : ℤ → ℤ → ℤ
saturating_sub_i64 a b =
    let d = a -ℤ b in
    if in_i64 d then d else if ltb_ℤ d (pos 0) then neg (pos (2 ^ 63)) else pos (2 ^ 63 - 1)

abbrev pub is_external : Channel → Bool
is_external in_app = false
is_external _ = true

abbrev pub is_forbidden : Map Text (Unit {0}) → Channel → Bool
is_forbidden allowed (webhook url) = not (contains_key url allowed)
is_forbidden allowed _ = false

-- The checks of `route`, before anything is looked up.
unfoldable pub admissible : AlertRouter → Alert → Channel → ℤ → Result AlertError (Unit {0})
admissible r alert channel now_ms = do
  fail_if
      (is_blank alert.alert_id
        || is_blank alert.dedupe_key
        || is_blank alert.source
        || is_blank alert.message)
      invalid_alert
  fail_if (ltb_ℤ now_ms alert.occurred_ms) future_timestamp
  fail_if (alert.sensitive && is_external channel) sensitive_external
  fail_if (is_forbidden r.allowed_webhooks channel) webhook_not_allowed
  ok tt

abbrev pub deliver :
    AlertRouter → Alert → Channel → ℤ → Result AlertError RouteOutcome × AlertRouter
deliver r alert channel now_ms =
    let key : Delivery = (alert.dedupe_key, channel) in
    if is_some_and (get key r.last_routed)
      (λ last. ltb_ℤ (saturating_sub_i64 now_ms last) r.cooldown_ms)
    then (ok suppressed, r)
    else if leb r.max_pending (length r.pending)
    then (err capacity, r)
    else (
      ok queued,
      record r {
        last_routed = insert key now_ms r.last_routed;
        pending = insert (alert.alert_id, channel) (alert, channel) r.pending;
      },
    )

abbrev pub route_checked :
    AlertRouter
    → Alert
    → Channel
    → ℤ
    → Result AlertError (Unit {0})
    → Result AlertError RouteOutcome × AlertRouter
route_checked r alert channel now_ms (err e) = (err e, r)
route_checked r alert channel now_ms (ok u) = deliver r alert channel now_ms

unfoldable pub route :
    AlertRouter → Alert → Channel → ℤ → Result AlertError RouteOutcome × AlertRouter
route r alert channel now_ms =
    route_checked r alert channel now_ms (admissible r alert channel now_ms)

-- The keys of a map hold one in-app delivery of an alert at most, which is removed.
unfoldable pub acknowledge : AlertRouter → Text → Bool × AlertRouter
acknowledge r id =
    if contains_key (id, in_app) r.pending
    then (
      true,
      record r {
        pending = remove (id, in_app) r.pending;
        acknowledged = insert id tt r.acknowledged;
      },
    )
    else (false, r)

unfoldable pub acknowledge_channel : AlertRouter → Text → Channel → Bool × AlertRouter
acknowledge_channel r id channel =
    let left = remove (id, channel) r.pending in
    if contains_key (id, channel) r.pending
    then (
      true,
      record r {
        pending = left;
        acknowledged =
            if any (λ k. key_eq k.0 id) (keys left)
            then r.acknowledged
            else insert id tt r.acknowledged;
      },
    )
    else (false, r)

abbrev pub is_acknowledged : AlertRouter → Text → Bool
is_acknowledged r id = contains_key id r.acknowledged
