-- ===== src/Execution/Submit.antt =====
-- crates/execution/src/lib.rs: `submit_order`, `cancel_order` and `replace_order`, which put the
-- order into the book or move it there before they call the broker's gateway. Each gives its result,
-- the book after it and the calls of the gateway that it made, in their order.
pub mod Outcomes
use insider_trader.Prelude.{
  ℤ, Bool, not, Option, List, [], ◌∷◌, if◌then◌else◌, Text, Result, ok, err,
}
use insider_trader.Broker.{OrderState, OrderIntent, BrokerGateway}
use insider_trader.Execution.{OrderBook, TransitionError, SubmitError, CancelError, ReplaceError}
use insider_trader.Execution.Book.{
  Outcome, insert_intent, transition, mark_unknown, prepare_replace,
}

-- A call of the gateway that changes an order there, with the book as it was at the call.
pub data GatewayCall : Type 0 where
  sends : OrderIntent → OrderBook → GatewayCall
  cancels : Text → OrderBook → GatewayCall
  replaces : Text → ℤ → Option ℤ → OrderBook → GatewayCall

-- What an operation returns, the book it leaves, and its calls of the gateway.
abbrev pub Called : Type 0 → Type 0
Called E = Result E (Unit {0}) × OrderBook × List GatewayCall

abbrev pub called : {E : Type 0} → GatewayCall → Called E → Called E
called call (result, book, calls) = (result, book, call ∷ calls)

-- A call on the book whose error ends the operation, with the book as the call left it.
abbrev pub proceed :
    {E D : Type 0} → Result D (Unit {0}) × OrderBook → (D → E) → (OrderBook → Called E) → Called E
proceed (err e, book) wrap next = (err (wrap e), book, [])
proceed (ok u, book) wrap next = next book

unfoldable pub submit_order : OrderBook → BrokerGateway → OrderIntent → Called SubmitError
submit_order book gateway intent =
    let id = intent.client_order_id in
    proceed (insert_intent book intent) SubmitError.transition λ inserted.
      proceed (transition inserted id OrderState.queued) SubmitError.transition λ queued.
        proceed (transition queued id OrderState.sending) SubmitError.transition λ sending.
          called (sends intent sending) (elim (gateway.send intent) [
            | err e ↦
                proceed (mark_unknown sending id) SubmitError.transition
                  λ uncertain. (err (SubmitError.gateway e), uncertain, [])
            | ok u ↦
                proceed (transition sending id OrderState.sent) SubmitError.transition
                  λ sent. (ok tt, sent, [])
          ])

unfoldable pub cancel_order : OrderBook → BrokerGateway → Text → Called CancelError
cancel_order book gateway id =
    if not gateway.capabilities.cancel_replace
    then (err CancelError.unsupported, book, [])
    else proceed (transition book id OrderState.cancel_pending) CancelError.transition λ pending.
      called (cancels id pending) (elim (gateway.cancel id) [
        | err e ↦
            proceed (transition pending id OrderState.unknown) CancelError.transition
              λ uncertain. (err (CancelError.gateway e), uncertain, [])
        | ok u ↦ (ok tt, pending, [])
      ])

unfoldable pub replace_order : OrderBook → BrokerGateway → Text → ℤ → Option ℤ → Called ReplaceError
replace_order book gateway id quantity price =
    if not gateway.capabilities.cancel_replace
    then (err ReplaceError.unsupported, book, [])
    else proceed (prepare_replace book id quantity price) (λ e. e)
        λ pending.
          called (replaces id quantity price pending) (elim (gateway.replace id quantity price) [
            | err e ↦
                proceed (transition pending id OrderState.unknown) ReplaceError.transition
                  λ uncertain. (err (ReplaceError.gateway e), uncertain, [])
            | ok u ↦ (ok tt, pending, [])
          ])
