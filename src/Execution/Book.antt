-- ===== src/Execution/Book.antt =====
-- crates/execution/src/lib.rs: `OrderBook`. A method returns its result and the book after it; a
-- method on one order writes the order back under its id.
pub mod Fills
pub mod Terminal
pub mod Steps
use insider_trader.Prelude.{
  ℤ, pos, ◌+ℤ◌, Bool, true, false, not, ◌&&◌, ◌||◌, Option, none, some, List, ltb_ℤ, leb_ℤ, eqb_ℤ,
  if◌then◌else◌, add_i64, map_or, Text, Result, ok, err, All, Option-cases, inl, inr, ◌≡◌, sym,
  subst,
}
use insider_trader.Maps.{
  text_key, key_eq, get, insert, contains_key, keys, values, get-All, insert-All,
}
use insider_trader.Broker.{OrderState, OrderIntent, BrokerEvent}
use insider_trader.Execution.{
  OrderRecord, OrderBook, TransitionError, unknown_order, invalid_transition, mismatched_order,
  ReplaceError, legal_transition,
}

abbrev pub Outcome : Type 0 → Type 0
Outcome A = Result TransitionError (Unit {0}) × A

abbrev pub with_state : OrderRecord → OrderState → OrderRecord
with_state r next = record r { intent = record r.intent { state = next } }

-- The source's `get_mut`: a method on the record, and the record written back; an error where
-- there is none.
unfoldable pub on_found :
    {E : Type 0}
    → E
    → OrderBook
    → Text
    → (OrderRecord → Result E (Unit {0}) × OrderRecord)
    → Option OrderRecord
    → Result E (Unit {0}) × OrderBook
on_found missing book id f none = (err missing, book)
on_found missing book id f (some r) = let (result, next) = f r in (result, insert id next book)

abbrev pub on_record :
    {E : Type 0}
    → E
    → OrderBook
    → Text
    → (OrderRecord → Result E (Unit {0}) × OrderRecord)
    → Result E (Unit {0}) × OrderBook
on_record missing book id f = on_found missing book id f (get id book)

abbrev pub is_risk_approved : OrderState → Bool
is_risk_approved OrderState.risk_approved = true
is_risk_approved _ = false

abbrev pub fresh_record : OrderIntent → OrderRecord
fresh_record intent = record {
  intent = intent;
  broker_order_id = none;
  filled_quantity_ticks = pos 0;
}

unfoldable pub insert_intent : OrderBook → OrderIntent → Outcome OrderBook
insert_intent book intent =
    if not (is_risk_approved intent.state)
    then (err (invalid_transition intent.state OrderState.risk_approved), book)
    else if contains_key intent.client_order_id book
    then (err mismatched_order, book)
    else (ok tt, insert intent.client_order_id (fresh_record intent) book)

unfoldable pub transition_record : OrderRecord → OrderState → Outcome OrderRecord
transition_record r next =
    if legal_transition r.intent.state next
    then (ok tt, with_state r next)
    else (err (invalid_transition r.intent.state next), r)

unfoldable pub transition : OrderBook → Text → OrderState → Outcome OrderBook
unfolding transition_record on_found
transition book id next = on_record unknown_order book id (λ r. transition_record r next)

abbrev pub mark_unknown : OrderBook → Text → Outcome OrderBook
mark_unknown book id = transition book id OrderState.unknown

-- The states in which an acknowledgement repeats one, and is compared with it.
abbrev pub is_acknowledged : OrderState → Bool
is_acknowledged OrderState.acknowledged = true
is_acknowledged OrderState.partially_filled = true
is_acknowledged OrderState.filled = true
is_acknowledged OrderState.cancel_pending = true
is_acknowledged OrderState.cancelled = true
is_acknowledged OrderState.rejected = true
is_acknowledged _ = false

abbrev pub is_filled : OrderState → Bool
is_filled OrderState.filled = true
is_filled _ = false

abbrev pub is_rejected : OrderState → Bool
is_rejected OrderState.rejected = true
is_rejected _ = false

abbrev pub is_cancelled : OrderState → Bool
is_cancelled OrderState.cancelled = true
is_cancelled _ = false

abbrev pub client_id : BrokerEvent → Text
client_id (BrokerEvent.acknowledged id broker_id) = id
client_id (BrokerEvent.filled id quantity price) = id
client_id (BrokerEvent.rejected id reason) = id
client_id (BrokerEvent.cancelled id) = id

-- The state that a cumulative quantity gives.
abbrev pub fill_state : OrderRecord → ℤ → OrderState
fill_state r total =
    if leb_ℤ r.intent.quantity_ticks total then OrderState.filled else OrderState.partially_filled

unfoldable pub fill_record : OrderRecord → ℤ → ℤ → Outcome OrderRecord
unfolding transition_record
fill_record r quantity price =
    if leb_ℤ quantity (pos 0) || leb_ℤ price (pos 0)
    then (err mismatched_order, r)
    else if is_filled r.intent.state
    then (ok tt, r)
    else elim (add_i64 r.filled_quantity_ticks quantity) [
      | none ↦ (err mismatched_order, r)
      | some total ↦
          if ltb_ℤ r.intent.quantity_ticks total
          then (err mismatched_order, r)
          else transition_record (record r { filled_quantity_ticks = total }) (fill_state r total)
    ]

unfoldable pub event_record : OrderRecord → BrokerEvent → Outcome OrderRecord
unfolding fill_record transition_record
event_record r (BrokerEvent.acknowledged id broker_id) =
    if is_acknowledged r.intent.state
    then (if map_or r.broker_order_id false (λ known. key_eq known broker_id)
        then (ok tt, r)
        else (err mismatched_order, r))
    else transition_record (record r { broker_order_id = some broker_id }) OrderState.acknowledged
event_record r (BrokerEvent.filled id quantity price) = fill_record r quantity price
event_record r (BrokerEvent.rejected id reason) =
    if is_rejected r.intent.state then (ok tt, r) else transition_record r OrderState.rejected
event_record r (BrokerEvent.cancelled id) =
    if is_cancelled r.intent.state then (ok tt, r) else transition_record r OrderState.cancelled

unfoldable pub apply_broker_event : OrderBook → BrokerEvent → Outcome OrderBook
unfolding event_record on_found
apply_broker_event book event =
    on_record unknown_order book (client_id event) (λ r. event_record r event)

-- The quantity is stored only behind a legal transition.
unfoldable pub cumulative_record : OrderRecord → ℤ → Outcome OrderRecord
unfolding transition_record
cumulative_record r cumulative =
    if ltb_ℤ cumulative r.filled_quantity_ticks || ltb_ℤ r.intent.quantity_ticks cumulative
    then (err mismatched_order, r)
    else if eqb_ℤ cumulative r.filled_quantity_ticks
    then (ok tt, r)
    else let (result, next) = transition_record r (fill_state r cumulative) in
      elim result [
        | err e ↦ (err e, next)
        | ok u ↦ (ok tt, record next { filled_quantity_ticks = cumulative })
      ]

unfoldable pub apply_cumulative_fill : OrderBook → Text → ℤ → Outcome OrderBook
unfolding cumulative_record on_found
apply_cumulative_fill book id cumulative =
    on_record unknown_order book id (λ r. cumulative_record r cumulative)

abbrev pub is_working : OrderState → Bool
is_working OrderState.acknowledged = true
is_working OrderState.partially_filled = true
is_working _ = false

unfoldable pub replace_record :
    OrderRecord → ℤ → Option ℤ → Result ReplaceError (Unit {0}) × OrderRecord
replace_record r quantity price =
    if leb_ℤ quantity (pos 0) || ltb_ℤ quantity r.filled_quantity_ticks
    then (err ReplaceError.invalid_quantity, r)
    else if not (is_working r.intent.state)
    then (
      err (ReplaceError.transition (invalid_transition r.intent.state OrderState.replace_pending)),
      r,
    )
    else (
      ok tt,
      record r {
        intent = record r.intent {
          quantity_ticks = quantity;
          limit_price_ticks = price;
          state = OrderState.replace_pending;
        };
      },
    )

unfoldable pub prepare_replace :
    OrderBook → Text → ℤ → Option ℤ → Result ReplaceError (Unit {0}) × OrderBook
unfolding replace_record on_found
prepare_replace book id quantity price =
    on_record (ReplaceError.transition unknown_order) book id (λ r. replace_record r quantity price)

abbrev pub client_order_ids : OrderBook → List Text
client_order_ids book = keys book

abbrev pub records : OrderBook → List OrderRecord
records book = values book

-- What holds of a method on one order: by whether the book has the order.
pub on_record_cases :
    {E : Type 0} (P : Result E (Unit {0}) × OrderBook → Type 0) (missing : E) (book : OrderBook)
    (id : Text) (f : OrderRecord → Result E (Unit {0}) × OrderRecord)
    → (get id book ≡ none → P (err missing, book))
    → ((r : OrderRecord) → get id book ≡ some r → P ((f r).0, insert id (f r).1 book))
    → P (on_record missing book id f)
unfolding on_found
on_record_cases P missing book id f absent present = elim (Option-cases (get id book)) [
  | inl e ↦ subst (λ o. P (on_found missing book id f o)) (sym e) (absent e)
  | inr (r, e) ↦ subst (λ o. P (on_found missing book id f o)) (sym e) (present r e)
]

-- A predicate that a method on one order keeps holds of all orders after it.
pub on_record-All :
    {E : Type 0} (P : OrderRecord → Type 0) (missing : E) (book : OrderBook) (id : Text)
    (f : OrderRecord → Result E (Unit {0}) × OrderRecord)
    → ((r : OrderRecord) → P r → P (f r).1)
    → All (λ e. P e.1) book
    → All (λ e. P e.1) (on_record missing book id f).1
on_record-All P missing book id f keep h =
    on_record_cases (λ o. All (λ e. P e.1) o.1) missing book id f (λ e. h)
      (λ r e. insert-All P id (f r).1 book (keep r (get-All P id book r h e)) h)
