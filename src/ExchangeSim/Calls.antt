-- ===== src/ExchangeSim/Calls.antt =====
-- Sequences of calls of crates/exchange-sim/src/lib.rs, and the events that they give out.
use insider_trader.Prelude.{
  ℕ, ℤ, ◌≡◌, refl, arith, false, Option, List, [], ◌∷◌, ◌++◌, ◌+◌, if◌then◌else◌, Text,
}
use insider_trader.Maps.{text_key, nat_key, key_eq}
use insider_trader.Broker.{OrderIntent, BrokerEvent}
use insider_trader.Execution.Book.{client_id}
use insider_trader.ExchangeSim.{PaperBroker, set_price, drain_events, send, cancel, replace}

-- The calls that change the broker.
pub data Call : Type 0 where
  prices : ℕ → ℤ → Call
  drains : Call
  sends : OrderIntent → Call
  cancels : Text → Call
  replaces : Text → ℤ → Option ℤ → Call

unfoldable pub step : PaperBroker → Call → PaperBroker
step b (prices instrument price) = (set_price b instrument price).1
step b drains = (drain_events b).1
step b (sends intent) = (send b intent).1
step b (cancels id) = (cancel b id).1
step b (replaces id quantity limit) = (replace b id quantity limit).1

unfoldable pub run : PaperBroker → List Call → PaperBroker
run b [] = b
run b (c ∷ cs) = run (step b c) cs

-- The events that a call drains.
abbrev pub drained : PaperBroker → Call → List BrokerEvent
drained b drains = (drain_events b).0
drained b (prices instrument price) = []
drained b (sends intent) = []
drained b (cancels id) = []
drained b (replaces id quantity limit) = []

-- All events that the broker gives out in a sequence of calls, with those that wait after it.
unfoldable pub emitted : PaperBroker → List Call → List BrokerEvent
emitted b [] = b.events
emitted b (c ∷ cs) = drained b c ++ emitted (step b c) cs

-- How many of the events are about an order.
unfoldable pub told : Text → List BrokerEvent → ℕ
told id [] = 0
told id (event ∷ events) = (if key_eq id (client_id event) then 1 else 0) + told id events

pub told-append :
    (id : Text) (xs ys : List BrokerEvent) → told id (xs ++ ys) ≡ told id xs + told id ys
unfolding told
told-append id [] ys = omega arith
told-append id (x ∷ xs) ys = omega (arith, told-append id xs ys)

pub told_none : (id : Text) → told id [] ≡ 0
unfolding told
told_none id = refl

pub told_other :
    (id : Text) (xs : List BrokerEvent) (event : BrokerEvent)
    → key_eq id (client_id event) ≡ false
    → told id (xs ++ (event ∷ [])) ≡ told id xs
unfolding told
told_other id xs event other = ground (arith, told-append id xs (event ∷ []), other)
