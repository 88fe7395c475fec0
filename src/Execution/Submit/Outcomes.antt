-- ===== src/Execution/Submit/Outcomes.antt =====
-- What the operations of crates/execution/src/lib.rs that call the broker leave in the book.
use insider_trader.Prelude.{
  ℤ, pos, ◌≡◌, refl, true, false, not, ◌&&◌, Option, none, some, if◌then◌else◌, Bool-cases, [], ◌∷◌,
  Result-cases, inl, inr, arith, Text, ok, err, leb_ℤ, ltb_ℤ, ◌||◌,
}
use insider_trader.Maps.{text_key, get, insert, contains_key, get-insert_self, insert-insert}
use insider_trader.Broker.{OrderState, OrderIntent, BrokerGateway}
use insider_trader.Execution.{
  OrderRecord, OrderBook, invalid_transition, mismatched_order, SubmitError, CancelError,
  ReplaceError, legal_transition,
}
use insider_trader.Execution.Book.{
  with_state, on_found, is_risk_approved, is_working, fresh_record, insert_intent, transition,
  replace_record, prepare_replace,
}
use insider_trader.Execution.Submit.{
  sends, cancels, replaces, submit_order, cancel_order, replace_order,
}

-- A legal move of an order that is in the book.
transition_found :
    (book : OrderBook) (id : Text) (r : OrderRecord) (next : OrderState)
    → get id book ≡ some r
    → legal_transition r.intent.state next ≡ true
    → transition book id next ≡ (ok tt, insert id (with_state r next) book)
unfolding transition
transition_found book id r next e h = rw (e, on_found, h)

transition_refused :
    (book : OrderBook) (id : Text) (r : OrderRecord) (next : OrderState)
    → get id book ≡ some r
    → legal_transition r.intent.state next ≡ false
    → transition book id next ≡ (err (invalid_transition r.intent.state next), insert id r book)
unfolding transition
transition_refused book id r next e h = rw (e, on_found, h)

-- A legal move of an order that was written just before.
transition_inserted :
    (book : OrderBook) (id : Text) (r : OrderRecord) (next : OrderState)
    → legal_transition r.intent.state next ≡ true
    → transition (insert id r book) id next ≡ (ok tt, insert id (with_state r next) book)
transition_inserted book id r next h =
    rw (transition_found (insert id r book) id r next (get-insert_self id r book) h, insert-insert)

insert_fresh :
    (book : OrderBook) (intent : OrderIntent)
    → is_risk_approved intent.state ≡ true
    → get intent.client_order_id book ≡ none
    → insert_intent book intent ≡ (ok tt, insert intent.client_order_id (fresh_record intent) book)
unfolding insert_intent
insert_fresh book intent a e = rw (a, e)

-- A new order that the risk check has approved goes to the broker once: the one call of the gateway
-- sends the intent, at a time when the book already has the order as being sent. After it the order
-- stands as sent if the gateway takes it, and as unknown if the gateway fails; no other order
-- changes.
pub submit_order_fresh :
    (book : OrderBook) (gateway : BrokerGateway) (intent : OrderIntent)
    → intent.state ≡ OrderState.risk_approved
    → get intent.client_order_id book ≡ none
    → let standing = λ (s : OrderState).
      insert intent.client_order_id (with_state (fresh_record intent) s) book in
      let calls = sends intent (standing OrderState.sending) ∷ [] in
      submit_order book gateway intent ≡ (elim (gateway.send intent) [
        | ok u ↦ (ok tt, standing OrderState.sent, calls)
        | err e ↦ (err (SubmitError.gateway e), standing OrderState.unknown, calls)
      ])
unfolding submit_order legal_transition
submit_order_fresh book gateway intent a e =
    let id = intent.client_order_id in
    let r = fresh_record intent in
    let approved : is_risk_approved intent.state ≡ true = rw a in
    let inserted = insert_fresh book intent approved e in
    let queued = transition_inserted book id r OrderState.queued (rw a) in
    let sending =
      transition_inserted book id (with_state r OrderState.queued) OrderState.sending refl in
    let last = transition_inserted book id (with_state r OrderState.sending) in
    elim (Result-cases (gateway.send intent)) [
      | inl (x, f) ↦ ground (arith, last OrderState.unknown refl)
      | inr (u, f) ↦ ground (arith, last OrderState.sent refl)
    ]

-- An intent that is not approved, or whose id the book has, never reaches the broker: the gateway is
-- not called, the result is the error that the book gives, and the book is as before.
pub submit_order_refused :
    (book : OrderBook) (gateway : BrokerGateway) (intent : OrderIntent)
    → (is_risk_approved intent.state && not (contains_key intent.client_order_id book)) ≡ false
    → submit_order book gateway intent ≡ (
      err (
          SubmitError.transition (
            if is_risk_approved intent.state
            then mismatched_order
            else invalid_transition intent.state OrderState.risk_approved)),
      book,
      [],
    )
unfolding submit_order insert_intent
submit_order_refused book gateway intent h = ground arith

submitted_stays :
    (book : OrderBook) (gateway : BrokerGateway) (intent : OrderIntent)
    → intent.state ≡ OrderState.risk_approved
    → get intent.client_order_id book ≡ none
    → contains_key intent.client_order_id (submit_order book gateway intent).1 ≡ true
submitted_stays book gateway intent a e =
    let id = intent.client_order_id in
    let kept = λ (s : OrderState). get-insert_self id (with_state (fresh_record intent) s) book in
    elim (Result-cases (gateway.send intent)) [
      | inl (x, f) ↦ rw (submit_order_fresh book gateway intent a e, f, kept OrderState.unknown)
      | inr (u, f) ↦ rw (submit_order_fresh book gateway intent a e, f, kept OrderState.sent)
    ]

-- Submitted again under the same id, by any intent and gateway, an order whose first submission
-- was taken in is refused with the error that the book gives: the gateway is not called, and the
-- book stays as the first submission left it.
pub submit_order_twice :
    (book : OrderBook) (first second : BrokerGateway) (intent again : OrderIntent)
    → intent.state ≡ OrderState.risk_approved
    → get intent.client_order_id book ≡ none
    → again.client_order_id ≡ intent.client_order_id
    → let after = (submit_order book first intent).1 in
      submit_order after second again ≡ (
        err (
            SubmitError.transition (
              if is_risk_approved again.state
              then mismatched_order
              else invalid_transition again.state OrderState.risk_approved)),
        after,
        [],
      )
submit_order_twice book first second intent again a e same =
    let after = (submit_order book first intent).1 in
    let there : contains_key again.client_order_id after ≡ true =
      rw same (submitted_stays book first intent a e) in
    submit_order_refused after second again (ground (arith, there))

-- A cancellation of a known order: where the lifecycle allows it the order waits for the broker, or
-- stands as unknown if the gateway fails; otherwise it is refused and the order is as before.
pub cancel_order_lem :
    (book : OrderBook) (gateway : BrokerGateway) (id : Text) (r : OrderRecord)
    → gateway.capabilities.cancel_replace ≡ true
    → get id book ≡ some r
    → let calls = cancels id (insert id (with_state r OrderState.cancel_pending) book) ∷ [] in
      cancel_order book gateway id ≡ (
        if legal_transition r.intent.state OrderState.cancel_pending
        then elim (gateway.cancel id) [
          | ok u ↦ (ok tt, insert id (with_state r OrderState.cancel_pending) book, calls)
          | err e ↦
              (err (CancelError.gateway e), insert id (with_state r OrderState.unknown) book, calls)
        ]
        else (
          err (
              CancelError.transition (invalid_transition r.intent.state OrderState.cancel_pending)),
          insert id r book,
          [],
        ))
unfolding cancel_order legal_transition
cancel_order_lem book gateway id r able e =
    elim (Bool-cases (legal_transition r.intent.state OrderState.cancel_pending)) [
      | inl h ↦ elim (Result-cases (gateway.cancel id)) [
        | inl (x, f) ↦ ground (
          arith,
          transition_found book id r OrderState.cancel_pending e h,
          transition_inserted book id (with_state r OrderState.cancel_pending) OrderState.unknown
              refl,
        )
        | inr (u, f) ↦ ground (arith, transition_found book id r OrderState.cancel_pending e h)
      ]
      | inr h ↦ rw (able, transition_refused book id r OrderState.cancel_pending e h, h)
    ]

replace_found :
    (book : OrderBook) (id : Text) (quantity : ℤ) (price : Option ℤ) (r : OrderRecord)
    → get id book ≡ some r
    → prepare_replace book id quantity price
      ≡ ((replace_record r quantity price).0, insert id (replace_record r quantity price).1 book)
unfolding prepare_replace
replace_found book id quantity price r e = rw (e, on_found)

-- The order with the requested quantity and price, waiting for the broker.
abbrev pub replaced : OrderRecord → ℤ → Option ℤ → OrderRecord
replaced r quantity price = record r {
  intent = record r.intent {
    quantity_ticks = quantity;
    limit_price_ticks = price;
    state = OrderState.replace_pending;
  };
}

-- What a replacement of a known order leaves: the order waits for the broker with the new quantity
-- and price, or stands as unknown with them if the gateway fails; it is as before if the quantity
-- is not positive or below what is filled, or if the order is not working.
pub replace_order_lem :
    (book : OrderBook) (gateway : BrokerGateway) (id : Text) (quantity : ℤ) (price : Option ℤ)
    (r : OrderRecord)
    → gateway.capabilities.cancel_replace ≡ true
    → get id book ≡ some r
    → let calls = replaces id quantity price (insert id (replaced r quantity price) book) ∷ [] in
      replace_order book gateway id quantity price ≡ (
        if leb_ℤ quantity (pos 0) || ltb_ℤ quantity r.filled_quantity_ticks
        then (err ReplaceError.invalid_quantity, insert id r book, [])
        else if is_working r.intent.state
        then elim (gateway.replace id quantity price) [
          | ok u ↦ (ok tt, insert id (replaced r quantity price) book, calls)
          | err e ↦ (
            err (ReplaceError.gateway e),
            insert id (with_state (replaced r quantity price) OrderState.unknown) book,
            calls,
          )
        ]
        else (
          err (
              ReplaceError.transition
                (invalid_transition r.intent.state OrderState.replace_pending)),
          insert id r book,
          [],
        ))
unfolding replace_order legal_transition replace_record
replace_order_lem book gateway id quantity price r able e =
    let wait = replaced r quantity price in
    elim (Result-cases (gateway.replace id quantity price)) [
      | inl (x, f) ↦ ground (
        arith,
        replace_found book id quantity price r e,
        transition_inserted book id wait OrderState.unknown refl,
      )
      | inr (u, f) ↦ ground (arith, replace_found book id quantity price r e)
    ]
