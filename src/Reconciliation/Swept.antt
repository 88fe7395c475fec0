-- ===== src/Reconciliation/Swept.antt =====
-- The orders that a sweep of the unknown ones, of crates/reconciliation/src/lib.rs, leaves alone.
use insider_trader.Prelude.{
  ◌≡◌, refl, sym, ap, ◌∙◌, arith, Bool, true, false, ◌&&◌, Option, none, some, List, [], ◌∷◌, Text,
  Result, ok, err, Bool-cases, Option-cases, inl, inr,
}
use insider_trader.Maps.{text_key, key_eq, key_eq_iff, get, get-insert}
use insider_trader.Broker.{BrokerEvent, BrokerGateway}
use insider_trader.Execution.{OrderRecord, OrderBook, unknown_order}
use insider_trader.Execution.Book.{
  on_record_cases, event_record, client_id, apply_broker_event, client_order_ids,
}
use insider_trader.Reconciliation.{
  is_unknown, resolve, reconcile_record, reconcile_unknown, unknown_ids, sweep,
  reconcile_all_unknown,
}
use insider_trader.Reconciliation.Known.{
  SameOrders, resolve_outcome-book, sweep-Advances, Advances-SameOrders,
}
use insider_trader.Reconciliation.Unknown.{IsHonest}

-- Whether the adapter has an event for an order.
abbrev pub is_answered : Result Text (Option BrokerEvent) → Bool
is_answered (ok (some event)) = true
is_answered (ok none) = false
is_answered (err e) = false

event_other :
    (n : Text) (book : OrderBook) (event : BrokerEvent)
    → key_eq n (client_id event) ≡ false
    → get n (apply_broker_event book event).1 ≡ get n book
unfolding apply_broker_event
event_other n book event other =
    on_record_cases (λ o. get n o.1 ≡ get n book) unknown_order book (client_id event)
      (λ r. event_record r event) (λ e. refl)
      (λ r here. get-insert n (client_id event) (event_record r event).1 book ∙ (rw other refl))

-- An order that is in a known state, or that the adapter has no event for.
abbrev IsLeft : BrokerGateway → Text → OrderRecord → Type 0
IsLeft g n r = (is_unknown r.intent.state && is_answered (g.reconcile n)) ≡ false

resolve-left :
    (g : BrokerGateway) (book : OrderBook) (id n : Text) (here r : OrderRecord)
    (answer : Result Text (Option BrokerEvent))
    → IsHonest g
    → g.reconcile id ≡ answer
    → get id book ≡ some here
    → is_unknown here.intent.state ≡ true
    → get n book ≡ some r
    → IsLeft g n r
    → get n (resolve book answer).1 ≡ some r
resolve-left g book id n here r (err e) honest asked known lost found left = found
resolve-left g book id n here r (ok none) honest asked known lost found left = found
resolve-left g book id n here r (ok (some event)) honest asked known lost found left =
    let about = honest id event asked in
    elim (Bool-cases (key_eq n id)) [
      | inl same ↦
          let one = (key_eq_iff n id).0 same in
          let this : here ≡ r = ground (arith, known, found, ap (λ k. get k book) one) in
          let answered : is_answered (g.reconcile n) ≡ true =
            ap (λ k. is_answered (g.reconcile k)) one ∙ ap is_answered asked in
          let unknown : is_unknown r.intent.state ≡ true =
            ap (λ x. is_unknown x.intent.state) (sym this) ∙ lost in
          absurd (ground (arith, left, answered, unknown))
      | inr other ↦
          ap (get n) (resolve_outcome-book (apply_broker_event book event))
          ∙ event_other n book event (ap (key_eq n) about ∙ other)
          ∙ found
    ]

reconcile_record-left :
    (g : BrokerGateway) (book : OrderBook) (id n : Text) (r : OrderRecord)
    → IsHonest g
    → get n book ≡ some r
    → IsLeft g n r
    → get n (reconcile_record g book id (get id book)).1 ≡ some r
reconcile_record-left g book id n r honest found left = elim (Option-cases (get id book)) [
  | inl absent ↦ rw absent found
  | inr (here, known) ↦ rw known (elim (Bool-cases (is_unknown here.intent.state)) [
    | inl lost ↦
        rw lost (resolve-left g book id n here r (g.reconcile id) honest refl known lost found left)
    | inr other ↦ rw other found
  ])
]

sweep-left :
    (g : BrokerGateway) (book : OrderBook) (ids : List Text) (n : Text) (r : OrderRecord)
    → IsHonest g
    → get n book ≡ some r
    → IsLeft g n r
    → get n (sweep g book ids).1 ≡ some r
unfolding sweep reconcile_unknown
sweep-left g book [] n r honest found left = found
sweep-left g book (id ∷ ids) n r honest found left =
    sweep-left g (reconcile_unknown g book id).1 ids n r honest
      (reconcile_record-left g book id n r honest found left) left

-- When the adapter answers for the orders it is asked about, a sweep of the unknown orders leaves
-- every order of the book as it is, but those in an unknown state that the adapter has an event for;
-- and the book after it has the same ids as before.
pub reconcile_all_unknown-others :
    (g : BrokerGateway) (book : OrderBook) (id : Text) (r : OrderRecord)
    → IsHonest g
    → get id book ≡ some r
    → (is_unknown r.intent.state && is_answered (g.reconcile id)) ≡ false
    → let after = (reconcile_all_unknown g book).1 in
      SameOrders book after × (get id after ≡ some r)
unfolding reconcile_all_unknown
reconcile_all_unknown-others g book id r honest found left =
    let ids = unknown_ids book (client_order_ids book) in
    (
      Advances-SameOrders book (sweep g book ids).1 (sweep-Advances g book ids),
      sweep-left g book ids id r honest found left,
    )
