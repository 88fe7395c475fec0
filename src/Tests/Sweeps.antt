-- ===== src/Tests/Sweeps.antt =====
-- Sweeps of an order book against a broker on concrete data.
use insider_trader.Prelude.{
  pos, ◌-ℤ◌, ◌+ℤ◌, in_i64, ◌≡◌, refl, ok, true, false, none, some, [], ◌∷◌, codes, Text, any, all,
  ◌⊎◌, All,
}
use insider_trader.Maps.{text_key, text_cmp, get, insert}
use insider_trader.Broker.{
  Side, OrderType, OrderState, TimeInForce, BrokerEvent, BrokerSnapshot, BrokerGateway,
}
use insider_trader.Execution.{OrderRecord, OrderBook, legal_transition}
use insider_trader.Execution.Book.{
  apply_broker_event, event_record, fill_record, transition_record, on_found, apply_cumulative_fill,
  cumulative_record,
}
use insider_trader.Reconciliation.{
  event_of, apply_snapshot_order, reconcile_snapshot, reconcile_all_unknown, observe_all,
}
use insider_trader.Reconciliation.Known.{SameOrders}
use insider_trader.Reconciliation.Records.{Grows}
use insider_trader.Reconciliation.Counted.{IsCounted}
use insider_trader.Reconciliation.Totals.{covers, is_failed, reconcile_snapshot-IsCounted}
use insider_trader.Reconciliation.Swept.{reconcile_all_unknown-others}
use insider_trader.Reconciliation.Findings.{
  IsJustified, is_missing_finding, reconcile_snapshot-IsJustified, reconcile_snapshot-missing,
}
use insider_trader.Reconciliation.Unknown.{IsHonest, IsTrueOf, reconcile_all_unknown-IsTrueOf}

abbrev order : Text → OrderState → OrderRecord
order id state = record {
  intent = record {
    intent_id = codes "i";
    account_id = 1;
    instrument_id = 1;
    client_order_id = id;
    side = Side.buy;
    quantity_ticks = pos 10;
    order_type = OrderType.limit;
    limit_price_ticks = some (pos 25);
    time_in_force = TimeInForce.day;
    state = state;
    trace_id = 1;
  };
  broker_order_id = none;
  filled_quantity_ticks = pos 2;
}

-- An order that was sent, and one in an unknown state.
abbrev book : OrderBook
book =
    (codes "a", order (codes "a") OrderState.sent)
    ∷ (codes "u", order (codes "u") OrderState.unknown)
    ∷ []

-- The broker has an order that the book does not, and says that the unknown one is filled.
abbrev snapshot : BrokerSnapshot
snapshot = record {
  orders =
      record {
        client_order_id = codes "x";
        event = BrokerEvent.cancelled (codes "x");
        filled_quantity_ticks = none;
      }
      ∷ record {
        client_order_id = codes "u";
        event = BrokerEvent.filled (codes "u") (pos 10) (pos 25);
        filled_quantity_ticks = some (pos 10);
      }
      ∷ [];
  positions = [];
  account_values = [];
}

-- An adapter that says of every order that it was cancelled.
abbrev gateway : BrokerGateway
gateway = record {
  capabilities = record {
    market = true;
    limit = true;
    fractional_quantity = false;
    cancel_replace = true;
  };
  send = λ intent. ok tt;
  reconcile = λ id. ok (some (BrokerEvent.cancelled id));
  snapshot = ok snapshot;
  cancel = λ id. ok tt;
  replace = λ id quantity price. ok tt;
}

there : get (codes "u") book ≡ some (order (codes "u") OrderState.unknown)
unfolding get text_cmp
there = refl

sent : get (codes "a") book ≡ some (order (codes "a") OrderState.sent)
unfolding get text_cmp
sent = refl

reconcile_snapshot-IsCounted_example :
    let (report, after) = reconcile_snapshot book snapshot in
    SameOrders book after
    × ((s : OrderRecord) × (get (codes "u") after ≡ some s)
        × IsCounted (codes "u") snapshot.orders (order (codes "u") OrderState.unknown) s
        × Grows (order (codes "u") OrderState.unknown) s
        × ((any (is_failed (codes "u")) report.findings ≡ true)
            ⊎ (all (covers (codes "u") s.filled_quantity_ticks) snapshot.orders ≡ true)))
reconcile_snapshot-IsCounted_example =
    reconcile_snapshot-IsCounted book snapshot (codes "u") (order (codes "u") OrderState.unknown)
      ((refl, tt), ((refl, refl), tt)) there

honest : IsHonest gateway
honest id (BrokerEvent.acknowledged j b) h = cc
honest id (BrokerEvent.filled j q p) h = cc
honest id (BrokerEvent.rejected j r) h = cc
honest id (BrokerEvent.cancelled j) h = cc

reconcile_all_unknown-others_example :
    let after = (reconcile_all_unknown gateway book).1 in
    SameOrders book after × (get (codes "a") after ≡ some (order (codes "a") OrderState.sent))
reconcile_all_unknown-others_example =
    reconcile_all_unknown-others gateway book (codes "a") (order (codes "a") OrderState.sent) honest
      sent refl

reconcile_snapshot-IsJustified_example :
    let (report, after) = reconcile_snapshot book snapshot in
    All (IsJustified book after snapshot.orders) report.findings
reconcile_snapshot-IsJustified_example = reconcile_snapshot-IsJustified book snapshot

sent_after :
    get (codes "a") (reconcile_snapshot book snapshot).1 ≡ some (order (codes "a") OrderState.sent)
unfolding reconcile_snapshot observe_all apply_snapshot_order event_of apply_broker_event
    apply_cumulative_fill cumulative_record event_record fill_record transition_record
    legal_transition on_found get insert text_cmp ◌-ℤ◌ in_i64 ◌+ℤ◌
sent_after = refl

reconcile_snapshot-missing_example :
    any (is_missing_finding (codes "a")) (reconcile_snapshot book snapshot).0.findings ≡ true
unfolding text_cmp
reconcile_snapshot-missing_example =
    reconcile_snapshot-missing book snapshot (codes "a") (order (codes "a") OrderState.sent)
      sent_after refl refl

reconcile_all_unknown-IsTrueOf_example :
    let (findings, after) = reconcile_all_unknown gateway book in All (IsTrueOf after) findings
reconcile_all_unknown-IsTrueOf_example = reconcile_all_unknown-IsTrueOf gateway book honest
