-- ===== src/Execution/Book/Steps.antt =====
-- Sequences of the calls of crates/execution/src/lib.rs that change an order book.
use insider_trader.Prelude.{ℤ, Option, List, [], ◌∷◌, Text}
use insider_trader.Broker.{OrderState, OrderIntent, BrokerEvent}
use insider_trader.Execution.{OrderBook}
use insider_trader.Execution.Book.{
  insert_intent, transition, apply_broker_event, apply_cumulative_fill, prepare_replace,
}

pub data Call : Type 0 where
  inserts : OrderIntent → Call
  moves : Text → OrderState → Call
  observes : BrokerEvent → Call
  counts : Text → ℤ → Call
  replaces : Text → ℤ → Option ℤ → Call

unfoldable pub step : OrderBook → Call → OrderBook
step book (inserts intent) = (insert_intent book intent).1
step book (moves id next) = (transition book id next).1
step book (observes event) = (apply_broker_event book event).1
step book (counts id cumulative) = (apply_cumulative_fill book id cumulative).1
step book (replaces id quantity price) = (prepare_replace book id quantity price).1

unfoldable pub run : OrderBook → List Call → OrderBook
unfolding step
run book [] = book
run book (c ∷ cs) = run (step book c) cs
