-- ===== src/Reconciliation/Known.antt =====
-- The sweeps of crates/reconciliation/src/lib.rs as calls of the order book.
use insider_trader.Prelude.{
  ℤ, ◌≡◌, refl, sym, ap, ◌∙◌, subst, arith, Bool, true, false, not, Option, none, some, List, [],
  ◌∷◌, ◌++◌, is_some, All, append-All, Text, Result, ok, err, Bool-cases, inl, inr,
}
use insider_trader.Maps.{text_key, key_eq, key_eq_iff, get, get-insert}
use insider_trader.Broker.{BrokerEvent, BrokerOrderSnapshot, BrokerGateway}
use insider_trader.Execution.{OrderRecord, OrderBook, TransitionError, unknown_order}
use insider_trader.Execution.Book.{
  Outcome, on_record, on_record_cases, event_record, cumulative_record, client_id,
  apply_broker_event, apply_cumulative_fill,
}
use insider_trader.Execution.Book.Steps.{
  Call, inserts, moves, observes, counts, replaces, step, run,
}
use insider_trader.Reconciliation.{
  event_of, apply_event, then_fill, apply_chosen, apply_to_record, apply_snapshot_order, observe,
  observe_all, is_unknown, resolve_outcome, resolve, reconcile_record, reconcile_unknown, sweep,
}

-- What the broker reports of orders: no intent is inserted, moved or replaced.
abbrev pub is_report : Call → Bool
is_report (observes event) = true
is_report (counts id cumulative) = true
is_report _ = false

-- A book that some reports of the broker lead to.
pub record Advances (book after : OrderBook) : Type 0 where
  pub reports : List Call
  pub only : All (λ c. is_report c ≡ true) reports
  pub reached : run book reports ≡ after

run-append : (book : OrderBook) (xs ys : List Call) → run book (xs ++ ys) ≡ run (run book xs) ys
unfolding run
run-append book [] ys = refl
run-append book (x ∷ xs) ys = run-append (step book x) xs ys

stays : (book : OrderBook) → Advances book book
unfolding run
stays book = record { reports = []; only = tt; reached = refl }

followed : (a b c : OrderBook) → Advances a b → Advances b c → Advances a c
followed a b c p q = record {
  reports = p.reports ++ q.reports;
  only = append-All (λ c. is_report c ≡ true) p.reports q.reports p.only q.only;
  reached = run-append a p.reports q.reports ∙ ap (λ x. run x q.reports) p.reached ∙ q.reached;
}

observes-Advances :
    (book : OrderBook) (event : BrokerEvent) → Advances book (apply_broker_event book event).1
unfolding run step
observes-Advances book event = record {
  reports = observes event ∷ [];
  only = (refl, tt);
  reached = refl;
}

counts-Advances :
    (book : OrderBook) (id : Text) (n : ℤ) → Advances book (apply_cumulative_fill book id n).1
unfolding run step
counts-Advances book id n = record { reports = counts id n ∷ []; only = (refl, tt); reached = refl }

apply_event-Advances :
    (book : OrderBook) (o : Option BrokerEvent) → Advances book (apply_event book o).1
apply_event-Advances book none = stays book
apply_event-Advances book (some event) = observes-Advances book event

then_fill-Advances :
    (book : OrderBook) (id : Text) (n : Option ℤ) (o : Outcome OrderBook)
    → Advances book o.1
    → Advances book (then_fill id n o).1
then_fill-Advances book id n (err e, b) h = h
then_fill-Advances book id none (ok u, b) h = h
then_fill-Advances book id (some n) (ok u, b) h =
    followed book b (apply_cumulative_fill b id n).1 h (counts-Advances b id n)

apply_chosen-Advances :
    (book : OrderBook) (order : BrokerOrderSnapshot)
    (r : Result TransitionError (Option BrokerEvent))
    → Advances book (apply_chosen book order r).1
apply_chosen-Advances book order (err e) = stays book
apply_chosen-Advances book order (ok event) =
    then_fill-Advances book order.client_order_id order.filled_quantity_ticks
      (apply_event book event) (apply_event-Advances book event)

apply_to_record-Advances :
    (book : OrderBook) (order : BrokerOrderSnapshot) (o : Option OrderRecord)
    → Advances book (apply_to_record book order o).1
apply_to_record-Advances book order none = stays book
apply_to_record-Advances book order (some r) =
    apply_chosen-Advances book order (event_of r order.event order.filled_quantity_ticks)

pub observe-Advances :
    (book : OrderBook) (order : BrokerOrderSnapshot) (o : Option OrderRecord)
    → Advances book (observe book order o).1
unfolding apply_snapshot_order
observe-Advances book order none = stays book
observe-Advances book order (some r) =
    apply_to_record-Advances book order (get order.client_order_id book)

pub observe_all-Advances :
    (book : OrderBook) (orders : List BrokerOrderSnapshot)
    → Advances book (observe_all book orders).1
unfolding observe_all
observe_all-Advances book [] = stays book
observe_all-Advances book (order ∷ orders) =
    let after = (observe book order (get order.client_order_id book)).1 in
    followed book after (observe_all after orders).1
      (observe-Advances book order (get order.client_order_id book))
      (observe_all-Advances after orders)

pub resolve_outcome-book : (o : Outcome OrderBook) → (resolve_outcome o).1 ≡ o.1
resolve_outcome-book (ok u, b) = refl
resolve_outcome-book (err e, b) = refl

resolve-Advances :
    (book : OrderBook) (r : Result Text (Option BrokerEvent)) → Advances book (resolve book r).1
resolve-Advances book (err e) = stays book
resolve-Advances book (ok none) = stays book
resolve-Advances book (ok (some event)) =
    subst (Advances book) (sym (resolve_outcome-book (apply_broker_event book event)))
      (observes-Advances book event)

pub reconcile_record-Advances :
    (g : BrokerGateway) (book : OrderBook) (id : Text) (o : Option OrderRecord)
    → Advances book (reconcile_record g book id o).1
reconcile_record-Advances g book id none = stays book
reconcile_record-Advances g book id (some r) = elim (Bool-cases (not (is_unknown r.intent.state))) [
  | inl other ↦ rw other (stays book)
  | inr lost ↦ rw lost (resolve-Advances book (g.reconcile id))
]

pub sweep-Advances :
    (g : BrokerGateway) (book : OrderBook) (ids : List Text) → Advances book (sweep g book ids).1
unfolding sweep reconcile_unknown
sweep-Advances g book [] = stays book
sweep-Advances g book (id ∷ ids) =
    let after = (reconcile_unknown g book id).1 in
    followed book after (sweep g after ids).1 (reconcile_record-Advances g book id (get id book))
      (sweep-Advances g after ids)

on_record-known :
    (n : Text) (missing : TransitionError) (book : OrderBook) (id : Text)
    (f : OrderRecord → Outcome OrderRecord)
    → is_some (get n (on_record missing book id f).1) ≡ is_some (get n book)
on_record-known n missing book id f =
    on_record_cases (λ o. is_some (get n o.1) ≡ is_some (get n book)) missing book id f (λ e. refl)
      (λ r here. elim (Bool-cases (key_eq n id)) [
        | inl same ↦
            let there : get n book ≡ some r =
              ap (λ k. get k book) ((key_eq_iff n id).0 same) ∙ here in
            ground (arith, get-insert n id (f r).1 book, same, there)
        | inr other ↦ ground (arith, get-insert n id (f r).1 book, other)
      ])

run-known :
    (n : Text) (book : OrderBook) (cs : List Call)
    → All (λ c. is_report c ≡ true) cs
    → is_some (get n (run book cs)) ≡ is_some (get n book)
unfolding run step apply_broker_event apply_cumulative_fill
run-known n book [] h = refl
run-known n book (observes event ∷ cs) h =
    run-known n (apply_broker_event book event).1 cs h.1
    ∙ on_record-known n unknown_order book (client_id event) (λ r. event_record r event)
run-known n book (counts id total ∷ cs) h =
    run-known n (apply_cumulative_fill book id total).1 cs h.1
    ∙ on_record-known n unknown_order book id (λ r. cumulative_record r total)
run-known n book (inserts intent ∷ cs) h = cc
run-known n book (moves id next ∷ cs) h = cc
run-known n book (replaces id quantity price ∷ cs) h = cc

-- The same orders before and after.
abbrev pub SameOrders : OrderBook → OrderBook → Type 0
SameOrders book after = (n : Text) → is_some (get n after) ≡ is_some (get n book)

pub Advances-SameOrders : (book after : OrderBook) → Advances book after → SameOrders book after
Advances-SameOrders book after a n =
    ap (λ b. is_some (get n b)) (sym a.reached) ∙ run-known n book a.reports a.only
