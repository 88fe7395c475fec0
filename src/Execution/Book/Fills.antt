-- ===== src/Execution/Book/Fills.antt =====
-- The filled quantity of the orders of crates/execution/src/lib.rs.
use insider_trader.Prelude.{
  ℤ, pos, ◌≤ℤ◌, Option, List, [], ◌∷◌, arith, +ℤ_parts, All, Bool-cases, inl, inr,
}
use insider_trader.Maps.{text_key, contains_key, insert-All}
use insider_trader.Broker.{OrderState, OrderIntent, BrokerEvent}
use insider_trader.Execution.{OrderRecord, OrderBook, ReplaceError, unknown_order}
use insider_trader.Execution.Book.{
  on_record-All, fresh_record, client_id, is_risk_approved, insert_intent, transition_record,
  transition, fill_record, event_record, apply_broker_event, cumulative_record,
  apply_cumulative_fill, replace_record, prepare_replace,
}
use insider_trader.Execution.Book.Steps.{
  Call, inserts, moves, observes, counts, replaces, step, run,
}

-- The filled quantity lies between zero and the quantity of the order.
pub record IsFillable (r : OrderRecord) : Type 0 where
  pub lower : pos 0 ≤ℤ r.filled_quantity_ticks
  pub upper : r.filled_quantity_ticks ≤ℤ r.intent.quantity_ticks

abbrev pub AreFillable : OrderBook → Type 0
AreFillable = All (λ e. IsFillable e.1)

fill_record-IsFillable :
    (r : OrderRecord) (quantity price : ℤ)
    → IsFillable r
    → IsFillable (fill_record r quantity price).1
unfolding fill_record
fill_record-IsFillable r quantity price h =
    ground (arith, +ℤ_parts r.filled_quantity_ticks quantity)

event_record-IsFillable :
    (r : OrderRecord) (event : BrokerEvent) → IsFillable r → IsFillable (event_record r event).1
unfolding event_record
event_record-IsFillable r (BrokerEvent.acknowledged id broker_id) h = ground arith
event_record-IsFillable r (BrokerEvent.filled id quantity price) h =
    fill_record-IsFillable r quantity price h
event_record-IsFillable r (BrokerEvent.rejected id reason) h = ground arith
event_record-IsFillable r (BrokerEvent.cancelled id) h = ground arith

cumulative_record-IsFillable :
    (r : OrderRecord) (cumulative : ℤ)
    → IsFillable r
    → IsFillable (cumulative_record r cumulative).1
unfolding cumulative_record
cumulative_record-IsFillable r cumulative h = ground arith

replace_record-IsFillable :
    (r : OrderRecord) (quantity : ℤ) (price : Option ℤ)
    → IsFillable r
    → IsFillable (replace_record r quantity price).1
unfolding replace_record
replace_record-IsFillable r quantity price h = ground arith

transition_record-IsFillable :
    (r : OrderRecord) (next : OrderState) → IsFillable r → IsFillable (transition_record r next).1
unfolding transition_record
transition_record-IsFillable r next h = ground arith

-- An intent that is inserted has a quantity that is not negative.
abbrev pub IsSane : Call → Type 0
IsSane (inserts intent) = pos 0 ≤ℤ intent.quantity_ticks
IsSane (moves id next) = Unit {0}
IsSane (observes event) = Unit {0}
IsSane (counts id cumulative) = Unit {0}
IsSane (replaces id quantity price) = Unit {0}

inserted-AreFillable :
    (book : OrderBook) (intent : OrderIntent)
    → pos 0 ≤ℤ intent.quantity_ticks
    → AreFillable book
    → AreFillable (insert_intent book intent).1
unfolding insert_intent
inserted-AreFillable book intent s h = elim (Bool-cases (is_risk_approved intent.state)) [
  | inr e ↦ rw (e, All) h
  | inl e ↦ elim (Bool-cases (contains_key intent.client_order_id book)) [
    | inl f ↦ rw (e, f) h
    | inr f ↦
        rw (e, f)
          (insert-All IsFillable intent.client_order_id (fresh_record intent) book
            (record { lower = omega arith; upper = s }) h)
  ]
]

step-AreFillable :
    (book : OrderBook) (c : Call) → IsSane c → AreFillable book → AreFillable (step book c)
unfolding step transition apply_broker_event apply_cumulative_fill prepare_replace
step-AreFillable book (inserts intent) s h = inserted-AreFillable book intent s h
step-AreFillable book (moves id next) s h =
    on_record-All IsFillable unknown_order book id (λ r. transition_record r next)
      (λ r. transition_record-IsFillable r next) h
step-AreFillable book (observes event) s h =
    on_record-All IsFillable unknown_order book (client_id event) (λ r. event_record r event)
      (λ r. event_record-IsFillable r event) h
step-AreFillable book (counts id cumulative) s h =
    on_record-All IsFillable unknown_order book id (λ r. cumulative_record r cumulative)
      (λ r. cumulative_record-IsFillable r cumulative) h
step-AreFillable book (replaces id quantity price) s h =
    on_record-All IsFillable (ReplaceError.transition unknown_order) book id
      (λ r. replace_record r quantity price) (λ r. replace_record-IsFillable r quantity price) h

-- After any sequence of calls, accepted or refused, the filled quantity of every order lies between
-- zero and the quantity of its intent, if that held before and no intent with a negative quantity
-- is inserted.
pub run-AreFillable :
    (book : OrderBook) (cs : List Call)
    → All IsSane cs
    → AreFillable book
    → AreFillable (run book cs)
unfolding run
run-AreFillable book [] s h = h
run-AreFillable book (c ∷ cs) s h =
    run-AreFillable (step book c) cs s.1 (step-AreFillable book c s.0 h)
