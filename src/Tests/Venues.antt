-- ===== src/Tests/Venues.antt =====
-- A paper broker on concrete data.
use insider_trader.Prelude.{
  pos, ◌+◌, ◌≡◌, refl, ok, err, none, some, List, [], ◌∷◌, ◌++◌, arith, codes, decimal,
  decimal_digits,
}
use insider_trader.Maps.{text_key, nat_key, text_cmp, get, insert, remove}
use insider_trader.Broker.{Side, OrderType, OrderState, TimeInForce, OrderIntent, BrokerEvent}
use insider_trader.Execution.{mismatched_order, legal_transition}
use insider_trader.Execution.Book.{fresh_record, event_record, transition_record}
use insider_trader.ExchangeSim.{
  PaperBroker, new_broker, set_price, match_resting, fill_each, candidates, send, accept_order,
  paper_id, reconcile,
}
use insider_trader.ExchangeSim.Calls.{
  Call, step, prices, drains, sends, cancels, run, emitted, told,
}
use insider_trader.ExchangeSim.Ended.{HasEnded, run-HasEnded}
use insider_trader.ExchangeSim.OrderIds.{send-reconcile}

-- A limit order to buy at 20.
abbrev intent : OrderIntent
intent = record {
  intent_id = codes "i";
  account_id = 1;
  instrument_id = 1;
  client_order_id = codes "c";
  side = Side.buy;
  quantity_ticks = pos 10;
  order_type = OrderType.limit;
  limit_price_ticks = some (pos 20);
  time_in_force = TimeInForce.day;
  state = OrderState.sent;
  trace_id = 1;
}

-- A broker with a mark of 25, and one that has filled the order.
abbrev broker : PaperBroker
broker = record new_broker { prices = (1, pos 25) ∷ [] }

abbrev filled : BrokerEvent
filled = BrokerEvent.filled (codes "c") (pos 10) (pos 19)

abbrev filled_broker : PaperBroker
filled_broker = record broker {
  events = BrokerEvent.acknowledged (codes "c") (codes "paper-1") ∷ filled ∷ [];
  seen = (codes "c", filled) ∷ [];
  accepted = (codes "c", intent) ∷ [];
  prices = (1, pos 19) ∷ [];
  next_order_id = 2;
}

filled_run : run broker (sends intent ∷ prices 1 (pos 19) ∷ []) ≡ filled_broker
unfolding run step send accept_order set_price match_resting fill_each candidates get insert remove
    text_cmp paper_id decimal decimal_digits
filled_run = refl

ended : HasEnded (codes "c") filled (some intent) filled_broker
unfolding get text_cmp
ended = record { reported = refl; gone = refl; taken = refl }

abbrev again : List Call
again = cancels (codes "c") ∷ drains ∷ sends intent ∷ prices 1 (pos 5) ∷ []

run-HasEnded_example :
    HasEnded (codes "c") filled (some intent) (run filled_broker again)
    × (told (codes "c") (emitted filled_broker again) ≡ told (codes "c") filled_broker.events)
run-HasEnded_example = run-HasEnded (codes "c") filled (some intent) filled_broker again ended

marked : get 1 broker.prices ≡ some (pos 25)
unfolding get
marked = refl

not_seen : get (codes "c") broker.seen ≡ none
unfolding get
not_seen = refl

taken :
    (event_record (fresh_record intent) (BrokerEvent.acknowledged (codes "c") (paper_id 1))).0
    ≡ ok tt
unfolding event_record transition_record legal_transition
taken = refl

send-reconcile_example :
    let emitted = BrokerEvent.acknowledged (codes "c") (paper_id 1) in
    let reported = BrokerEvent.acknowledged (codes "c") (paper_id (1 + 1)) in
    let after = (send broker intent).1 in
    (after.events ≡ broker.events ++ (emitted ∷ []))
    × (reconcile after (codes "c") ≡ some reported)
    × ((event_record (event_record (fresh_record intent) emitted).1 reported).0
        ≡ err mismatched_order)
send-reconcile_example =
    send-reconcile broker intent (pos 25) (fresh_record intent) refl marked not_seen refl
      (omega arith) refl taken
