-- ===== src/Reconciliation/Unknown.antt =====
-- What the sweep of crates/reconciliation/src/lib.rs makes of orders in an unknown state, and of an
-- order that was cancelled with a fill that is new.
use insider_trader.Prelude.{
  ℤ, pos, ltb_ℤ, leb_ℤ, ◌≡◌, refl, sym, ap, ◌∙◌, subst, arith, Bool, true, false, ◌||◌, not, Option,
  none, some, List, [], ◌∷◌, All, Text, Result, ok, err, Bool-cases, add_i64, map_or, inl, inr,
  if◌then◌else◌, is_some, Option-cases,
}
use insider_trader.Maps.{text_key, key_eq, key_eq_iff, get, get-insert, get-insert_self}
use insider_trader.Broker.{OrderState, BrokerEvent, BrokerGateway}
use insider_trader.Execution.{
  OrderRecord, OrderBook, TransitionError, unknown_order, mismatched_order, legal_transition,
}
use insider_trader.Execution.Book.{
  Outcome, on_record, on_record_cases, is_filled, is_acknowledged, is_rejected, is_cancelled,
  transition_record, fill_state, fill_record, event_record, cumulative_record, client_id,
  apply_broker_event, apply_cumulative_fill, client_order_ids,
}
use insider_trader.Execution.Book.Steps.{
  Call, inserts, moves, observes, counts, replaces, step, run,
}
use insider_trader.Reconciliation.{
  ReconcileStatus, resolved, still_unknown, ReconcileError, SweepFinding, is_resolved,
  is_still_unknown, sweep_failed, sweep_finding, is_unknown, resolve_outcome, resolve,
  reconcile_record, reconcile_unknown, unknown_ids, sweep, reconcile_all_unknown,
}
use insider_trader.Reconciliation.Known.{
  is_report, Advances, reconcile_record-Advances, sweep-Advances, Advances-SameOrders,
}

-- An order that the book does not hold in an unknown state.
abbrev pub IsSettled : OrderBook → Text → Type 0
IsSettled book id = (r : OrderRecord) → get id book ≡ some r → is_unknown r.intent.state ≡ false

-- A method that makes no order unknown, and settles one where it is accepted.
abbrev Settles : OrderRecord → Outcome OrderRecord → Type 0
Settles r o =
    (o.0 ≡ ok tt → is_unknown o.1.intent.state ≡ false)
    × (is_unknown r.intent.state ≡ false → is_unknown o.1.intent.state ≡ false)

transition_record-Settles :
    (r : OrderRecord) (next : OrderState)
    → is_unknown next ≡ false
    → Settles r (transition_record r next)
unfolding transition_record
transition_record-Settles r next h = elim (Bool-cases (legal_transition r.intent.state next)) [
  | inl legal ↦ rw legal ((λ e. h), (λ e. h))
  | inr bad ↦ rw bad ((λ e. cc), (λ e. e))
]

fill_state-settled : (r : OrderRecord) (total : ℤ) → is_unknown (fill_state r total) ≡ false
fill_state-settled r total = ground arith

-- A state that was answered before is kept, and is none of the unknown ones.
keeps-Settles :
    (r : OrderRecord) (b : Bool) (o : Outcome OrderRecord)
    → (b ≡ true → is_unknown r.intent.state ≡ false)
    → Settles r o
    → Settles r (if b then (ok tt, r) else o)
keeps-Settles r true o h k = ((λ e. h refl), (λ e. e))
keeps-Settles r false o h k = k

refuses-Settles :
    (r : OrderRecord) (b : Bool) (e : TransitionError) (o : Outcome OrderRecord)
    → Settles r o
    → Settles r (if b then (err e, r) else o)
refuses-Settles r true e o k = ((λ e. cc), (λ e. e))
refuses-Settles r false e o k = k

fill_record-Settles :
    (r : OrderRecord) (quantity price : ℤ) → Settles r (fill_record r quantity price)
unfolding fill_record
fill_record-Settles r quantity price =
    refuses-Settles r (leb_ℤ quantity (pos 0) || leb_ℤ price (pos 0)) mismatched_order _ (
      keeps-Settles r (is_filled r.intent.state) _ (λ h. ground (arith, h))
        (elim (add_i64 r.filled_quantity_ticks quantity)
          as (λ o. Settles r (elim o [
            | none ↦ (err mismatched_order, r)
            | some total ↦
                if ltb_ℤ r.intent.quantity_ticks total
                then (err mismatched_order, r)
                else transition_record (record r { filled_quantity_ticks = total })
                    (fill_state r total)
          ])) [
            | none ↦ ((λ e. cc), (λ e. e))
            | some total ↦
                refuses-Settles r (ltb_ℤ r.intent.quantity_ticks total) mismatched_order _ (
                  transition_record-Settles (record r { filled_quantity_ticks = total })
                    (fill_state r total) (fill_state-settled r total))
          ]))

event_record-Settles : (r : OrderRecord) (event : BrokerEvent) → Settles r (event_record r event)
unfolding event_record
event_record-Settles r (BrokerEvent.acknowledged id broker_id) =
    elim (Bool-cases (is_acknowledged r.intent.state)) [
      | inl before ↦ rw before (
          keeps-Settles r (map_or r.broker_order_id false (λ known. key_eq known broker_id)) _
            (λ h. ground (arith, before)) ((λ e. cc), (λ e. e)))
      | inr now ↦ rw now (
          transition_record-Settles (record r { broker_order_id = some broker_id })
            OrderState.acknowledged refl)
    ]
event_record-Settles r (BrokerEvent.filled id quantity price) = fill_record-Settles r quantity price
event_record-Settles r (BrokerEvent.rejected id reason) =
    keeps-Settles r (is_rejected r.intent.state) _ (λ h. ground (arith, h))
      (transition_record-Settles r OrderState.rejected refl)
event_record-Settles r (BrokerEvent.cancelled id) =
    keeps-Settles r (is_cancelled r.intent.state) _ (λ h. ground (arith, h))
      (transition_record-Settles r OrderState.cancelled refl)

cumulative_record-Settles :
    (r : OrderRecord) (total : ℤ)
    → is_unknown r.intent.state ≡ false
    → is_unknown (cumulative_record r total).1.intent.state ≡ false
unfolding cumulative_record transition_record
cumulative_record-Settles r total h = ground (arith, h, fill_state-settled r total)

on_record-IsSettled :
    (n : Text) (missing : TransitionError) (book : OrderBook) (id : Text)
    (f : OrderRecord → Outcome OrderRecord)
    → ((r : OrderRecord)
        → is_unknown r.intent.state ≡ false
        → is_unknown (f r).1.intent.state ≡ false)
    → IsSettled book n
    → IsSettled (on_record missing book id f).1 n
on_record-IsSettled n missing book id f keep h =
    on_record_cases (λ o. IsSettled o.1 n) missing book id f (λ e. h)
      (λ r here x found. elim (Bool-cases (key_eq n id)) [
        | inl same ↦
            let this : (f r).1 ≡ x = ground (arith, get-insert n id (f r).1 book, same, found) in
            let before : is_unknown r.intent.state ≡ false =
              h r (ap (λ k. get k book) ((key_eq_iff n id).0 same) ∙ here) in
            subst (λ y. is_unknown y.intent.state ≡ false) this (keep r before)
        | inr other ↦ h x (ground (arith, get-insert n id (f r).1 book, other, found))
      ])

run-IsSettled :
    (n : Text) (book : OrderBook) (cs : List Call)
    → All (λ c. is_report c ≡ true) cs
    → IsSettled book n
    → IsSettled (run book cs) n
unfolding run step apply_broker_event apply_cumulative_fill
run-IsSettled n book [] h s = s
run-IsSettled n book (observes event ∷ cs) h s =
    run-IsSettled n (apply_broker_event book event).1 cs h.1 (
      on_record-IsSettled n unknown_order book (client_id event) (λ r. event_record r event)
        (λ r. (event_record-Settles r event).1) s)
run-IsSettled n book (counts id total ∷ cs) h s =
    run-IsSettled n (apply_cumulative_fill book id total).1 cs h.1 (
      on_record-IsSettled n unknown_order book id (λ r. cumulative_record r total)
        (λ r. cumulative_record-Settles r total) s)
run-IsSettled n book (inserts intent ∷ cs) h s = cc
run-IsSettled n book (moves id next ∷ cs) h s = cc
run-IsSettled n book (replaces id quantity price ∷ cs) h s = cc

-- An event that the book accepts settles its order.
apply_broker_event-IsSettled :
    (book : OrderBook) (event : BrokerEvent)
    → (apply_broker_event book event).0 ≡ ok tt
    → IsSettled (apply_broker_event book event).1 (client_id event)
unfolding apply_broker_event
apply_broker_event-IsSettled book event =
    on_record_cases (λ o. o.0 ≡ ok tt → IsSettled o.1 (client_id event)) unknown_order book
      (client_id event) (λ r. event_record r event) (λ e h. cc)
      (λ r here h x found.
        let this : (event_record r event).1 ≡ x =
          ground (arith, get-insert_self (client_id event) (event_record r event).1 book, found) in
        subst (λ y. is_unknown y.intent.state ≡ false) this ((event_record-Settles r event).0 h))

-- An adapter that answers for the order it is asked about.
abbrev pub IsHonest : BrokerGateway → Type 0
IsHonest g =
    (id : Text) (event : BrokerEvent) → g.reconcile id ≡ ok (some event) → client_id event ≡ id

resolve_outcome-eq-ok :
    (o : Outcome OrderBook)
    → (resolve_outcome o).0 ≡ ok resolved
    → (o.0 ≡ ok tt) × ((resolve_outcome o).1 ≡ o.1)
resolve_outcome-eq-ok (ok u, b) h = (refl, refl)
resolve_outcome-eq-ok (err e, b) h = cc

resolve-IsSettled :
    (g : BrokerGateway) (book : OrderBook) (id : Text) (r : Result Text (Option BrokerEvent))
    → IsHonest g
    → g.reconcile id ≡ r
    → (resolve book r).0 ≡ ok resolved
    → IsSettled (resolve book r).1 id
resolve-IsSettled g book id (err e) honest a h = cc
resolve-IsSettled g book id (ok none) honest a h = cc
resolve-IsSettled g book id (ok (some event)) honest a h =
    let (accepted, same) = resolve_outcome-eq-ok (apply_broker_event book event) h in
    subst (λ b. IsSettled b id) (sym same)
      (subst (IsSettled (apply_broker_event book event).1) (honest id event a)
        (apply_broker_event-IsSettled book event accepted))

reconcile_record-IsSettled :
    (g : BrokerGateway) (book : OrderBook) (id : Text) (o : Option OrderRecord)
    → IsHonest g
    → (reconcile_record g book id o).0 ≡ ok resolved
    → IsSettled (reconcile_record g book id o).1 id
reconcile_record-IsSettled g book id none honest = λ h. cc
reconcile_record-IsSettled g book id (some r) honest =
    elim (Bool-cases (not (is_unknown r.intent.state))) [
      | inl other ↦ rw other (λ h. cc)
      | inr lost ↦ rw lost (resolve-IsSettled g book id (g.reconcile id) honest refl)
    ]

reconcile_record-known :
    (g : BrokerGateway) (book : OrderBook) (id : Text) (o : Option OrderRecord)
    → (reconcile_record g book id o).0 ≡ ok resolved
    → is_some o ≡ true
reconcile_record-known g book id none h = cc
reconcile_record-known g book id (some r) h = refl

settled_here :
    (book : OrderBook) (id : Text)
    → is_some (get id book) ≡ true
    → IsSettled book id
    → (r : OrderRecord) × (get id book ≡ some r) × (is_unknown r.intent.state ≡ false)
settled_here book id h settled = elim (Option-cases (get id book)) [
  | inl absent ↦ absurd (ground (arith, h, absent))
  | inr (r, here) ↦ (r, here, settled r here)
]

-- A finding of the sweep is true of the book after it.
abbrev pub IsTrueOf : OrderBook → Text × SweepFinding → Type 0
IsTrueOf book (id, is_resolved) =
    (r : OrderRecord) × (get id book ≡ some r) × (is_unknown r.intent.state ≡ false)
IsTrueOf book (id, is_still_unknown) = Unit
IsTrueOf book (id, sweep_failed e) = Unit

sweep-IsTrueOf :
    (g : BrokerGateway) (book : OrderBook) (ids : List Text)
    → IsHonest g
    → All (IsTrueOf (sweep g book ids).1) (sweep g book ids).0
unfolding sweep reconcile_unknown
sweep-IsTrueOf g book [] honest = tt
sweep-IsTrueOf g book (id ∷ ids) honest =
    let step = reconcile_record g book id (get id book) in
    let a = sweep-Advances g step.1 ids in
    let settled = reconcile_record-IsSettled g book id (get id book) honest in
    let same =
      Advances-SameOrders book step.1 (reconcile_record-Advances g book id (get id book)) id in
    let known =
      λ (e : step.0 ≡ ok resolved). same ∙ reconcile_record-known g book id (get id book) e in
    (first step.0 step.1 ids settled known a, sweep-IsTrueOf g step.1 ids honest)
  where
    first :
        (result : Result ReconcileError ReconcileStatus) (after : OrderBook) (ids : List Text)
        → (result ≡ ok resolved → IsSettled after id)
        → (result ≡ ok resolved → is_some (get id after) ≡ true)
        → Advances after (sweep g after ids).1
        → IsTrueOf (sweep g after ids).1 (id, sweep_finding result)
    first (ok resolved) after ids s k a =
        let last = (sweep g after ids).1 in
        settled_here last id (Advances-SameOrders after last a id ∙ k refl)
          (subst (λ b. IsSettled b id) a.reached (run-IsSettled id after a.reports a.only (s refl)))
    first (ok still_unknown) after ids s k a = tt
    first (err e) after ids s k a = tt

-- When the adapter answers for the orders it is asked about, every order that a sweep of the unknown
-- orders reports as resolved is in the book afterwards in a state that is known.
pub reconcile_all_unknown-IsTrueOf :
    (g : BrokerGateway) (book : OrderBook)
    → IsHonest g
    → let (findings, after) = reconcile_all_unknown g book in All (IsTrueOf after) findings
unfolding reconcile_all_unknown
reconcile_all_unknown-IsTrueOf g book honest =
    sweep-IsTrueOf g book (unknown_ids book (client_order_ids book)) honest
