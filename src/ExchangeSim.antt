-- ===== src/ExchangeSim.antt =====
-- crates/exchange-sim/src/lib.rs: the paper broker, which fills orders at the marks that it is given.
-- An error is a value in place of its text, and no lock is poisoned.
pub mod Calls
pub mod Ended
pub mod OrderIds
use insider_trader.Prelude.{
  ℕ, ◌==◌, ℤ, pos, ◌+ℤ◌, neg, leb_ℤ, eqb_ℤ, add_i64, Bool, true, false, ◌&&◌, not, Option, none,
  some, List, [], ◌∷◌, ◌++◌, is_some, is_some_and, unwrap_or, if◌then◌else◌, saturating_add_u64,
  Text, codes, decimal, in_i64, map, ◌^◌, ◌-◌, Result, ok, err,
}
use insider_trader.Maps.{Map, text_key, nat_key, get, insert, remove}
use insider_trader.Broker.{
  Side, OrderType, OrderIntent, BrokerEvent, BrokerOrderSnapshot, BrokerPositionSnapshot,
  BrokerSnapshot,
}

pub data SimError : Type 0 where
  unknown_price invalid_quantity unsupported_order not_working missing_intent position_overflow :
      SimError
  duplicate : BrokerEvent → SimError

pub record PaperBroker : Type 0 where
  pub prices : Map ℕ ℤ
  pub events : List BrokerEvent
  pub seen : Map Text BrokerEvent
  pub accepted : Map Text OrderIntent
  pub resting : Map Text OrderIntent
  pub next_order_id : ℕ

abbrev pub new_broker : PaperBroker
new_broker = record {
  prices = [];
  events = [];
  seen = [];
  accepted = [];
  resting = [];
  next_order_id = 1;
}

-- Whether a limit order would trade at a price.
abbrev pub crosses : OrderIntent → ℤ → Bool
crosses intent price =
    is_some_and intent.limit_price_ticks
      (λ limit. elim intent.side [ Side.buy ↦ leb_ℤ price limit | Side.sell ↦ leb_ℤ limit price ])

unfoldable pub candidates : Map Text OrderIntent → ℕ → ℤ → List Text
candidates [] instrument price = []
candidates ((id, intent) ∷ m) instrument price =
    let rest = candidates m instrument price in
    if (intent.instrument_id == instrument) && crosses intent price then id ∷ rest else rest

-- An order that rests, filled as a whole.
abbrev pub fill_resting : PaperBroker → Text → ℤ → Option OrderIntent → PaperBroker
fill_resting b id price none = b
fill_resting b id price (some intent) =
    let filled = BrokerEvent.filled id intent.quantity_ticks price in
    record b {
      events = b.events ++ (filled ∷ []);
      seen = insert id filled b.seen;
      resting = remove id b.resting;
    }

unfoldable pub fill_each : PaperBroker → ℤ → List Text → PaperBroker
fill_each b price [] = b
fill_each b price (id ∷ ids) = fill_each (fill_resting b id price (get id b.resting)) price ids

unfoldable pub match_resting : PaperBroker → ℕ → ℤ → PaperBroker
match_resting b instrument price = fill_each b price (candidates b.resting instrument price)

unfoldable pub set_price : PaperBroker → ℕ → ℤ → Result SimError (Unit {0}) × PaperBroker
set_price b instrument price = if leb_ℤ price (pos 0) then (err unknown_price, b) else (
  ok tt,
  match_resting (record b { prices = insert instrument price b.prices }) instrument price,
)

abbrev pub drain_events : PaperBroker → List BrokerEvent × PaperBroker
drain_events b = (b.events, record b { events = [] })

unfoldable pub paper_id : ℕ → Text
paper_id n = codes "paper-" ++ decimal n

abbrev pub is_marketable : OrderIntent → ℤ → Bool
is_marketable intent price = elim intent.order_type [
  | OrderType.market ↦ true
  | OrderType.limit ↦ crosses intent price
]

-- The intent is taken in and acknowledged. The next number is counted up before the state that a
-- resting order is reported in is written, with the number that it has then.
unfoldable pub accept_order : PaperBroker → OrderIntent → ℤ → PaperBroker
accept_order b intent price =
    let id = intent.client_order_id in
    let next = saturating_add_u64 b.next_order_id 1 in
    let acknowledged = BrokerEvent.acknowledged id (paper_id b.next_order_id) in
    let filled = BrokerEvent.filled id intent.quantity_ticks price in
    let taken : PaperBroker = record b {
      accepted = insert id intent b.accepted;
      next_order_id = next;
      events = b.events ++ (acknowledged ∷ []);
    } in
    if is_marketable intent price
    then record taken { seen = insert id filled b.seen; events = taken.events ++ (filled ∷ []) }
    else record taken {
      seen = insert id (BrokerEvent.acknowledged id (paper_id next)) b.seen;
      resting = insert id intent b.resting;
    }

abbrev pub send_at :
    PaperBroker
    → OrderIntent
    → Option ℤ
    → Option BrokerEvent
    → Result SimError (Unit {0}) × PaperBroker
send_at b intent none event = (err unknown_price, b)
send_at b intent (some price) (some event) = (err (duplicate event), b)
send_at b intent (some price) none = (ok tt, accept_order b intent price)

unfoldable pub send : PaperBroker → OrderIntent → Result SimError (Unit {0}) × PaperBroker
send b intent =
    if leb_ℤ intent.quantity_ticks (pos 0)
    then (err invalid_quantity, b)
    else send_at b intent (get intent.instrument_id b.prices) (get intent.client_order_id b.seen)

abbrev pub reconcile : PaperBroker → Text → Option BrokerEvent
reconcile b id = get id b.seen

abbrev pub cancel_resting :
    PaperBroker → Text → Option OrderIntent → Result SimError (Unit {0}) × PaperBroker
cancel_resting b id none = (err not_working, b)
cancel_resting b id (some intent) =
    let event = BrokerEvent.cancelled id in
    (
      ok tt,
      record b {
        resting = remove id b.resting;
        seen = insert id event b.seen;
        events = b.events ++ (event ∷ []);
      },
    )

unfoldable pub cancel : PaperBroker → Text → Result SimError (Unit {0}) × PaperBroker
cancel b id = cancel_resting b id (get id b.resting)

abbrev pub needs_limit : OrderIntent → Option ℤ → Bool
needs_limit intent limit = elim intent.order_type [
  | OrderType.limit ↦ not (is_some limit)
  | OrderType.market ↦ false
]

abbrev pub replace_resting :
    PaperBroker
    → Text
    → ℤ
    → Option ℤ
    → Option OrderIntent
    → Result SimError (Unit {0}) × PaperBroker
replace_resting b id quantity limit none = (err not_working, b)
replace_resting b id quantity limit (some intent) =
    if needs_limit intent limit then (err unsupported_order, b) else (
      ok tt,
      record b {
        resting =
            insert id (record intent { quantity_ticks = quantity; limit_price_ticks = limit })
              b.resting;
      },
    )

unfoldable pub replace :
    PaperBroker → Text → ℤ → Option ℤ → Result SimError (Unit {0}) × PaperBroker
replace b id quantity limit =
    if leb_ℤ quantity (pos 0)
    then (err invalid_quantity, b)
    else replace_resting b id quantity limit (get id b.resting)

-- `i64::saturating_neg`.
abbrev pub saturating_neg_i64 : ℤ → ℤ
saturating_neg_i64 a = if in_i64 (neg a) then neg a else pos (2 ^ 63 - 1)

abbrev pub signed_quantity : OrderIntent → ℤ → ℤ
signed_quantity intent quantity = elim intent.side [
  | Side.buy ↦ quantity
  | Side.sell ↦ saturating_neg_i64 quantity
]

-- The quantities by instrument that the fills among the reported events add up to.
unfoldable pub quantities_of :
    Map Text BrokerEvent → Map Text OrderIntent → Map ℕ ℤ → Result SimError (Map ℕ ℤ)
quantities_of [] accepted quantities = ok quantities
quantities_of ((id, BrokerEvent.filled j quantity price) ∷ m) accepted quantities =
    elim (get id accepted) [
      | none ↦ err missing_intent
      | some intent ↦
          elim (add_i64 (unwrap_or (get intent.instrument_id quantities) (pos 0))
            (signed_quantity intent quantity)) [
              | none ↦ err position_overflow
              | some total ↦ quantities_of m accepted (insert intent.instrument_id total quantities)
            ]
    ]
quantities_of ((id, BrokerEvent.acknowledged j broker_id) ∷ m) accepted quantities =
    quantities_of m accepted quantities
quantities_of ((id, BrokerEvent.rejected j reason) ∷ m) accepted quantities =
    quantities_of m accepted quantities
quantities_of ((id, BrokerEvent.cancelled j) ∷ m) accepted quantities =
    quantities_of m accepted quantities

unfoldable pub positions_of : Map ℕ ℤ → List BrokerPositionSnapshot
positions_of [] = []
positions_of ((instrument, quantity) ∷ m) =
    let rest = positions_of m in
    if eqb_ℤ quantity (pos 0)
    then rest
    else record { instrument_id = instrument; quantity_ticks = quantity } ∷ rest

abbrev pub filled_quantity : BrokerEvent → Option ℤ
filled_quantity (BrokerEvent.filled id quantity price) = some quantity
filled_quantity (BrokerEvent.acknowledged id broker_id) = none
filled_quantity (BrokerEvent.rejected id reason) = none
filled_quantity (BrokerEvent.cancelled id) = none

abbrev pub order_snapshot : Text × BrokerEvent → BrokerOrderSnapshot
order_snapshot (id, event) = record {
  client_order_id = id;
  event = event;
  filled_quantity_ticks = filled_quantity event;
}

unfoldable pub snapshot : PaperBroker → Result SimError BrokerSnapshot
snapshot b = elim (quantities_of b.seen b.accepted []) [
  | err e ↦ err e
  | ok quantities ↦ ok (record {
    orders = map order_snapshot b.seen;
    positions = positions_of quantities;
    account_values = [];
  })
]
