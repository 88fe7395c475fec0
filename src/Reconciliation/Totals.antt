-- ===== src/Reconciliation/Totals.antt =====
-- The cumulative quantities that a snapshot of the broker gives, and the filled quantities of the book
-- after it, in crates/reconciliation/src/lib.rs.
use insider_trader.Prelude.{
  ℤ, ◌≤ℤ◌, leb_ℤ, ◌≡◌, refl, sym, ap, ◌∙◌, subst, arith, Bool, true, false, ◌||◌, not, Option, some,
  List, [], ◌∷◌, ◌++◌, any, all, All, map_or, Text, Result, ok, err, Bool-cases, Option-cases,
  Result-cases, inl, inr, ◌⊎◌,
}
use insider_trader.Maps.{text_key, key_eq, key_eq_iff, get, get-insert_self}
use insider_trader.Broker.{BrokerEvent, BrokerOrderSnapshot, BrokerSnapshot}
use insider_trader.Execution.{OrderRecord, OrderBook, TransitionError, unknown_order}
use insider_trader.Execution.Book.{
  Outcome, on_record_cases, transition_record, cumulative_record, apply_cumulative_fill,
  client_order_ids,
}
use insider_trader.Reconciliation.{
  SnapshotFinding, applied, external_order, missing_at_broker, failed, finding_of, event_of,
  apply_event, then_fill, apply_chosen, apply_to_record, apply_snapshot_order, observe, observe_all,
  missing_findings, reconcile_snapshot,
}
use insider_trader.Reconciliation.Known.{SameOrders, observe_all-Advances, Advances-SameOrders}
use insider_trader.Reconciliation.Records.{Grows}
use insider_trader.Reconciliation.Counted.{IsOwn, IsCounted, observe-IsTold, observe_all-IsCounted}
use insider_trader.Reconciliation.Findings.{any-sort_findings, any-append}

-- Whether a finding is a failure of an order.
abbrev pub is_failed : Text → Text × SnapshotFinding → Bool
is_failed id (j, failed e) = key_eq id j
is_failed id (j, applied) = false
is_failed id (j, external_order) = false
is_failed id (j, missing_at_broker) = false

-- Whether a row gives no cumulative quantity of an order that is above a quantity.
abbrev pub covers : Text → ℤ → BrokerOrderSnapshot → Bool
covers id quantity order =
    not (key_eq id order.client_order_id)
    || map_or order.filled_quantity_ticks true (λ c. leb_ℤ c quantity)

cumulative_record-eq-ok :
    (r : OrderRecord) (c : ℤ)
    → (cumulative_record r c).0 ≡ ok tt
    → (cumulative_record r c).1.filled_quantity_ticks ≡ c
unfolding cumulative_record transition_record
cumulative_record-eq-ok r c h = ground (arith, h)

apply_cumulative_fill-eq-ok :
    (book : OrderBook) (id : Text) (c : ℤ) (s : OrderRecord)
    → (apply_cumulative_fill book id c).0 ≡ ok tt
    → get id (apply_cumulative_fill book id c).1 ≡ some s
    → s.filled_quantity_ticks ≡ c
unfolding apply_cumulative_fill
apply_cumulative_fill-eq-ok book id c s =
    on_record_cases (λ o. o.0 ≡ ok tt → get id o.1 ≡ some s → s.filled_quantity_ticks ≡ c)
      unknown_order book id (λ r. cumulative_record r c) (λ e h. cc)
      (λ r here h found.
        let this : (cumulative_record r c).1 ≡ s =
          ground (arith, get-insert_self id (cumulative_record r c).1 book, found) in
        subst (λ x. x.filled_quantity_ticks ≡ c) this (cumulative_record-eq-ok r c h))

then_fill-eq-ok :
    (id : Text) (c : ℤ) (o : Outcome OrderBook) (s : OrderRecord)
    → (then_fill id (some c) o).0 ≡ ok tt
    → get id (then_fill id (some c) o).1 ≡ some s
    → s.filled_quantity_ticks ≡ c
then_fill-eq-ok id c (err e, book) s h found = cc
then_fill-eq-ok id c (ok u, book) s h found = apply_cumulative_fill-eq-ok book id c s h found

apply_chosen-eq-ok :
    (book : OrderBook) (order : BrokerOrderSnapshot) (c : ℤ)
    (result : Result TransitionError (Option BrokerEvent)) (s : OrderRecord)
    → order.filled_quantity_ticks ≡ some c
    → (apply_chosen book order result).0 ≡ ok tt
    → get order.client_order_id (apply_chosen book order result).1 ≡ some s
    → s.filled_quantity_ticks ≡ c
apply_chosen-eq-ok book order c (err e) s total h found = cc
apply_chosen-eq-ok book order c (ok event) s total h found =
    let id = order.client_order_id in
    let o = apply_event book event in
    then_fill-eq-ok id c o s (ap (λ x. (then_fill id x o).0) (sym total) ∙ h)
      (ap (λ x. get id (then_fill id x o).1) (sym total) ∙ found)

-- The finding on a row about an order of the book: a failure, or the row's cumulative quantity is
-- the filled one.
apply_to_record-covers :
    (book : OrderBook) (order : BrokerOrderSnapshot) (here s : OrderRecord)
    → get order.client_order_id (apply_to_record book order (some here)).1 ≡ some s
    → let result = (apply_to_record book order (some here)).0 in
      (is_failed order.client_order_id (order.client_order_id, finding_of result) ≡ true)
      ⊎ (covers order.client_order_id s.filled_quantity_ticks order ≡ true)
apply_to_record-covers book order here s found =
    let chosen = event_of here order.event order.filled_quantity_ticks in
    let id = order.client_order_id in
    elim (Result-cases (apply_to_record book order (some here)).0) [
      | inl (e, bad) ↦
          inl (ap (λ x. is_failed id (id, finding_of x)) bad ∙ (key_eq_iff id id).1 refl)
      | inr (u, good) ↦ inr (elim (Option-cases order.filled_quantity_ticks) [
        | inl absent ↦ ground (arith, absent)
        | inr (c, total) ↦
            let this = apply_chosen-eq-ok book order c chosen s total good found in
            ground (arith, total, this)
      ])
    ]

observe-covers :
    (n : Text) (book : OrderBook) (order : BrokerOrderSnapshot) (r s : OrderRecord)
    → get n book ≡ some r
    → let (finding, after) = observe book order (get order.client_order_id book) in
      get n after ≡ some s
      → (is_failed n (order.client_order_id, finding) ≡ true)
        ⊎ (covers n s.filled_quantity_ticks order ≡ true)
unfolding apply_snapshot_order
observe-covers n book order r s known found = elim (Bool-cases (key_eq n order.client_order_id)) [
  | inr other ↦ inr (ground (arith, other))
  | inl same ↦
      let id = order.client_order_id in
      let one : n ≡ id = (key_eq_iff n id).0 same in
      let here : get id book ≡ some r = ap (λ k. get k book) (sym one) ∙ known in
      let seen : observe book order (get id book) ≡ (
        finding_of (apply_to_record book order (some r)).0,
        (apply_to_record book order (some r)).1,
      ) =
        ap (observe book order) here
        ∙ ap (λ o. (finding_of (apply_to_record book order o).0, (apply_to_record book order o).1))
            here in
      let after : get id (apply_to_record book order (some r)).1 ≡ some s =
        ap (λ o. get id o.1) (sym seen)
        ∙ ap (λ k. get k (observe book order (get id book)).1) (sym one)
        ∙ found in
      subst
        (λ k.
          (is_failed k (id, (observe book order (get id book)).0) ≡ true)
          ⊎ (covers k s.filled_quantity_ticks order ≡ true))
        (sym one)
        (subst
          (λ (o : SnapshotFinding × OrderBook).
            (is_failed id (id, o.0) ≡ true) ⊎ (covers id s.filled_quantity_ticks order ≡ true))
          (sym seen) (apply_to_record-covers book order r s after))
]

covers_more :
    (n : Text) (order : BrokerOrderSnapshot) (a b : ℤ)
    → a ≤ℤ b
    → covers n a order ≡ true
    → covers n b order ≡ true
covers_more n order a b more h = elim (Option-cases order.filled_quantity_ticks) [
  | inl absent ↦ ground (arith, h, absent)
  | inr (c, total) ↦ ground (arith, h, total, more)
]

observe_all-covers :
    (n : Text) (book : OrderBook) (orders : List BrokerOrderSnapshot) (r t : OrderRecord)
    → All IsOwn orders
    → get n book ≡ some r
    → get n (observe_all book orders).1 ≡ some t
    → (any (is_failed n) (observe_all book orders).0 ≡ true)
      ⊎ (all (covers n t.filled_quantity_ticks) orders ≡ true)
unfolding observe_all
observe_all-covers n book [] r t own known found = inr refl
observe_all-covers n book (order ∷ orders) r t (own, others) known found =
    let after = (observe book order (get order.client_order_id book)).1 in
    let (s, there, told) = observe-IsTold n book order r own known in
    let (last, there_too, counted, grown) = observe_all-IsCounted n after orders s others there in
    let same : last ≡ t = ground (arith, there_too, found) in
    let more : s.filled_quantity_ticks ≤ℤ t.filled_quantity_ticks =
      subst (λ x. s.filled_quantity_ticks ≤ℤ x.filled_quantity_ticks) same grown.0 in
    both n order (observe book order (get order.client_order_id book)).0
      (observe_all after orders).0 orders s t more (observe-covers n book order r s known there)
      (observe_all-covers n after orders s t others there found)
  where
    both :
        (n : Text) (order : BrokerOrderSnapshot) (finding : SnapshotFinding)
        (findings : List (Text × SnapshotFinding)) (orders : List BrokerOrderSnapshot)
        (s t : OrderRecord)
        → s.filled_quantity_ticks ≤ℤ t.filled_quantity_ticks
        → (is_failed n (order.client_order_id, finding) ≡ true)
          ⊎ (covers n s.filled_quantity_ticks order ≡ true)
        → (any (is_failed n) findings ≡ true)
          ⊎ (all (covers n t.filled_quantity_ticks) orders ≡ true)
        → (any (is_failed n) ((order.client_order_id, finding) ∷ findings) ≡ true)
          ⊎ (all (covers n t.filled_quantity_ticks) (order ∷ orders) ≡ true)
    both n order finding findings orders s t more (inl bad) rest = inl (ground (arith, bad))
    both n order finding findings orders s t more (inr good) (inl bad) = inl (ground (arith, bad))
    both n order finding findings orders s t more (inr good) (inr fine) =
        let first = covers_more n order s.filled_quantity_ticks t.filled_quantity_ticks more good in
        inr (ground (arith, first, fine))

-- When every row of a snapshot reports on the order that it names, and every fill in it comes with
-- the cumulative quantity, then an order of the book is in the book after the snapshot, of its
-- intent only the state may be another, and its filled quantity is the one before or one, no
-- smaller, that a row of the snapshot gives as the order's cumulative quantity: no fill is counted
-- twice. Unless the report has a failure of the order, the filled quantity is also at least every
-- cumulative quantity that the snapshot gives of it. The book after has the same ids as before.
pub reconcile_snapshot-IsCounted :
    (book : OrderBook) (snapshot : BrokerSnapshot) (id : Text) (r : OrderRecord)
    → All IsOwn snapshot.orders
    → get id book ≡ some r
    → let (report, after) = reconcile_snapshot book snapshot in
      SameOrders book after
      × ((s : OrderRecord) × (get id after ≡ some s)
          × IsCounted id snapshot.orders r s
          × Grows r s
          × ((any (is_failed id) report.findings ≡ true)
              ⊎ (all (covers id s.filled_quantity_ticks) snapshot.orders ≡ true)))
unfolding reconcile_snapshot
reconcile_snapshot-IsCounted book snapshot id r own known =
    let orders = snapshot.orders in
    let (findings, after) = observe_all book orders in
    let (s, there, counted, grown) = observe_all-IsCounted id book orders r own known in
    let missing = missing_findings after orders (client_order_ids after) in
    let p = is_failed id in
    let reported = λ (bad : any p findings ≡ true).
      any-sort_findings p (findings ++ missing)
      ∙ any-append p findings missing
      ∙ ap (λ b. b || any p missing) bad in
    (
      Advances-SameOrders book after (observe_all-Advances book orders),
      (
        s,
        there,
        counted,
        grown,
        (elim (observe_all-covers id book orders r s own known there) [
          | inl bad ↦ inl (reported bad)
          | inr good ↦ inr good
        ]),
      ),
    )
