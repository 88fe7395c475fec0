-- ===== src/Execution.antt =====
-- crates/execution/src/lib.rs: the order book's records and errors, and the legal transitions of an
-- order.
pub mod Book
pub mod Submit
pub mod Schedule
pub mod Children
pub mod Plan
use insider_trader.Prelude.{ℤ, Bool, true, false, Option, Text}
use insider_trader.Maps.{Map}
use insider_trader.Broker.{OrderState, OrderIntent}

pub data TransitionError : Type 0 where
  unknown_order : TransitionError
  invalid_transition : OrderState → OrderState → TransitionError
  mismatched_order : TransitionError

pub data SubmitError : Type 0 where
  transition : TransitionError → SubmitError
  gateway : Text → SubmitError

pub data CancelError : Type 0 where
  transition : TransitionError → CancelError
  unsupported : CancelError
  gateway : Text → CancelError

pub data ReplaceError : Type 0 where
  transition : TransitionError → ReplaceError
  unsupported : ReplaceError
  gateway : Text → ReplaceError
  invalid_quantity : ReplaceError

pub record OrderRecord : Type 0 where
  pub intent : OrderIntent
  pub broker_order_id : Option Text
  pub filled_quantity_ticks : ℤ

-- `OrderBook`: its one field, the orders by client order id.
abbrev pub OrderBook : Type 0
OrderBook = Map Text OrderRecord

-- The broker's answers to an order that it has, in the states that wait for one.
abbrev pub answered : OrderState → Bool
answered OrderState.acknowledged = true
answered OrderState.partially_filled = true
answered OrderState.filled = true
answered OrderState.rejected = true
answered OrderState.unknown = true
answered _ = false

unfoldable pub legal_transition : OrderState → OrderState → Bool
legal_transition OrderState.risk_approved OrderState.queued = true
legal_transition OrderState.risk_approved OrderState.sending = true
legal_transition OrderState.risk_approved OrderState.cancelled = true
legal_transition OrderState.risk_approved to = answered to
legal_transition OrderState.queued OrderState.sending = true
legal_transition OrderState.queued OrderState.unknown = true
legal_transition OrderState.sending OrderState.sent = true
legal_transition OrderState.sending OrderState.unknown = true
legal_transition OrderState.sent to = answered to
legal_transition OrderState.replace_pending to = answered to
legal_transition OrderState.acknowledged OrderState.partially_filled = true
legal_transition OrderState.acknowledged OrderState.filled = true
legal_transition OrderState.acknowledged OrderState.cancel_pending = true
legal_transition OrderState.acknowledged OrderState.rejected = true
legal_transition OrderState.acknowledged OrderState.unknown = true
legal_transition OrderState.partially_filled OrderState.partially_filled = true
legal_transition OrderState.partially_filled OrderState.filled = true
legal_transition OrderState.partially_filled OrderState.cancel_pending = true
legal_transition OrderState.partially_filled OrderState.unknown = true
legal_transition OrderState.cancel_pending OrderState.cancelled = true
legal_transition OrderState.cancel_pending OrderState.filled = true
legal_transition OrderState.cancel_pending OrderState.unknown = true
legal_transition OrderState.unknown OrderState.acknowledged = true
legal_transition OrderState.unknown OrderState.rejected = true
legal_transition OrderState.unknown OrderState.partially_filled = true
legal_transition OrderState.unknown OrderState.filled = true
legal_transition OrderState.unknown OrderState.cancelled = true
legal_transition _ _ = false
