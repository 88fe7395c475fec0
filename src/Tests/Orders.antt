-- ===== src/Tests/Orders.antt =====
-- Runs of the order book of crates/execution/src/lib.rs on concrete data.
use insider_trader.Prelude.{
  pos, ◌≡◌, refl, ok, err, true, false, none, some, List, [], ◌∷◌, arith, codes,
}
use insider_trader.Maps.{text_key, text_cmp, get, insert}
use insider_trader.Broker.{
  Side, OrderType, OrderState, TimeInForce, OrderIntent, BrokerEvent, BrokerGateway,
}
use insider_trader.Execution.{OrderRecord, OrderBook, SubmitError, mismatched_order}
use insider_trader.Execution.Book.{fresh_record, with_state}
use insider_trader.Execution.Book.Steps.{Call, inserts, moves, observes, counts, run}
use insider_trader.Execution.Book.Fills.{AreFillable, run-AreFillable}
use insider_trader.Execution.Book.Terminal.{EndedIn, run-EndedIn}
use insider_trader.Execution.Submit.{sends, submit_order}
use insider_trader.Execution.Submit.Outcomes.{submit_order_fresh, submit_order_twice}

abbrev order : OrderState → OrderIntent
order state = record {
  intent_id = codes "i";
  account_id = 1;
  instrument_id = 1;
  client_order_id = codes "c";
  side = Side.buy;
  quantity_ticks = pos 10;
  order_type = OrderType.limit;
  limit_price_ticks = some (pos 25);
  time_in_force = TimeInForce.day;
  state = state;
  trace_id = 1;
}

abbrev in_state : OrderState → OrderRecord
in_state state = record {
  intent = order state;
  broker_order_id = some (codes "b");
  filled_quantity_ticks = pos 4;
}

abbrev book_in : OrderState → OrderBook
book_in state = (codes "c", in_state state) ∷ []

-- A gateway that takes orders and fails to cancel or replace them.
abbrev gateway : BrokerGateway
gateway = record {
  capabilities = record {
    market = true;
    limit = true;
    fractional_quantity = false;
    cancel_replace = true;
  };
  send = λ intent. ok tt;
  reconcile = λ id. ok none;
  snapshot = err (codes "down");
  cancel = λ id. err (codes "down");
  replace = λ id quantity price. err (codes "down");
}

abbrev calls : List Call
calls =
    inserts (order OrderState.risk_approved)
    ∷ moves (codes "c") OrderState.acknowledged
    ∷ observes (BrokerEvent.filled (codes "c") (pos 4) (pos 25))
    ∷ counts (codes "c") (pos 10)
    ∷ []

run-AreFillable_example : AreFillable (run [] calls)
run-AreFillable_example = run-AreFillable [] calls (omega arith, (tt, (tt, (tt, tt)))) tt

run-EndedIn_example :
    EndedIn OrderState.cancelled (codes "c") (run (book_in OrderState.cancelled) calls)
unfolding get text_cmp
run-EndedIn_example =
    run-EndedIn OrderState.cancelled (codes "c") (book_in OrderState.cancelled) calls refl
      (in_state OrderState.cancelled, refl, refl)

submit_order_fresh_example : submit_order [] gateway (order OrderState.risk_approved) ≡ (
  ok tt,
  insert
      (codes "c")
      (with_state (fresh_record (order OrderState.risk_approved)) OrderState.sent)
      [],
  sends (order OrderState.risk_approved) (
        insert
          (codes "c")
          (with_state (fresh_record (order OrderState.risk_approved)) OrderState.sending)
          [])
      ∷ [],
)
unfolding get text_cmp
submit_order_fresh_example =
    submit_order_fresh [] gateway (order OrderState.risk_approved) refl refl

submit_order_twice_example :
    submit_order
      (submit_order [] gateway (order OrderState.risk_approved)).1
      gateway
      (order OrderState.risk_approved)
    ≡ (
      err (SubmitError.transition mismatched_order),
      (submit_order [] gateway (order OrderState.risk_approved)).1,
      [],
    )
unfolding get text_cmp
submit_order_twice_example =
    submit_order_twice [] gateway gateway (order OrderState.risk_approved)
      (order OrderState.risk_approved) refl refl refl
