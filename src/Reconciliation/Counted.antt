-- ===== src/Reconciliation/Counted.antt =====
-- What a snapshot makes of the filled quantities of the orders of the book, in
-- crates/reconciliation/src/lib.rs.
use insider_trader.Prelude.{
  ℤ, int_laws, eqb_ℤ, ◌≡◌, refl, sym, ap, ◌∙◌, subst, arith, Bool, true, ◌&&◌, Option, none, some,
  List, [], ◌∷◌, is_some_and, any, All, Text, Result, ok, err, Bool-cases, Option-cases, inl, inr,
  if◌then◌else◌, ◌⊎◌,
}
use insider_trader.Maps.{text_key, key_eq, key_eq_iff, get, get-insert}
use insider_trader.Broker.{BrokerEvent, BrokerOrderSnapshot}
use insider_trader.Execution.{OrderRecord, OrderBook, TransitionError, unknown_order}
use insider_trader.Execution.Book.{
  Outcome, on_record, on_record_cases, event_record, cumulative_record, client_id,
  apply_broker_event, apply_cumulative_fill,
}
use insider_trader.Reconciliation.{
  event_of, then_fill, apply_chosen, apply_to_record, apply_snapshot_order, observe, observe_all,
}
use insider_trader.Reconciliation.Records.{
  IsTotalled, Grows, cumulative_record-filled, event_record-Grows, cumulative_record-Grows,
  Grows-trans, event_of-own,
}

-- A row that reports on the order it names, and whose fill comes with the cumulative quantity.
abbrev pub IsOwn : BrokerOrderSnapshot → Type 0
IsOwn order =
    (client_id order.event ≡ order.client_order_id)
    × IsTotalled order.event order.filled_quantity_ticks

-- Whether a row gives a quantity as the cumulative one of an order.
abbrev pub totals : Text → ℤ → BrokerOrderSnapshot → Bool
totals id quantity order =
    key_eq id order.client_order_id
    && is_some_and order.filled_quantity_ticks (λ c. eqb_ℤ c quantity)

-- The filled quantity stays, or becomes one that a row among these gives.
abbrev pub IsCounted : Text → List BrokerOrderSnapshot → OrderRecord → OrderRecord → Type 0
IsCounted id orders r s =
    (s.filled_quantity_ticks ≡ r.filled_quantity_ticks)
    ⊎ (any (totals id s.filled_quantity_ticks) orders ≡ true)

-- A method on one order, as seen from any order of the book.
on_record_found :
    (n : Text) (missing : TransitionError) (book : OrderBook) (id : Text)
    (f : OrderRecord → Outcome OrderRecord) (r : OrderRecord)
    → get n book ≡ some r
    → get n (on_record missing book id f).1 ≡ some (if key_eq n id then (f r).1 else r)
on_record_found n missing book id f r here =
    on_record_cases (λ o. get n o.1 ≡ some (if key_eq n id then (f r).1 else r)) missing book id f
      (λ absent. elim (Bool-cases (key_eq n id)) [
        | inl same ↦
            absurd (ground (arith, here, absent, ap (λ k. get k book) ((key_eq_iff n id).0 same)))
        | inr other ↦ rw other here
      ])
      (λ s found. elim (Bool-cases (key_eq n id)) [
        | inl same ↦
            let this : s ≡ r =
              ground (arith, here, found, ap (λ k. get k book) ((key_eq_iff n id).0 same)) in
            get-insert n id (f s).1 book ∙ (rw (same, this) refl)
        | inr other ↦ get-insert n id (f s).1 book ∙ (rw other here)
      ])

-- What one row says of an order: its filled quantity stays or becomes the total of the row.
abbrev pub IsTold : Text → Text → Option ℤ → OrderRecord → OrderRecord → Type 0
IsTold n id total r s =
    ((s.filled_quantity_ticks ≡ r.filled_quantity_ticks)
      ⊎ ((key_eq n id ≡ true) × (total ≡ some s.filled_quantity_ticks)))
    × Grows r s

-- A call about the order of the row, seen from any order of the book.
on_record-IsTold :
    (n id : Text) (total : Option ℤ) (book : OrderBook) (f : OrderRecord → Outcome OrderRecord)
    (r : OrderRecord)
    → get n book ≡ some r
    → (key_eq n id ≡ true → IsTold n id total r (f r).1)
    → (s : OrderRecord) × (get n (on_record unknown_order book id f).1 ≡ some s)
      × IsTold n id total r s
on_record-IsTold n id total book f r here own = elim (Bool-cases (key_eq n id)) [
  | inl same ↦
      ((f r).1, on_record_found n unknown_order book id f r here ∙ (rw same refl), own same)
  | inr other ↦ (
    r,
    on_record_found n unknown_order book id f r here ∙ (rw other refl),
    same_told n id total r,
  )
]
  where
    same_told : (n id : Text) (total : Option ℤ) (r : OrderRecord) → IsTold n id total r r
    same_told n id total r = (inl refl, (omega int_laws, refl))

-- The cumulative quantity after an event.
then_fill-IsTold :
    (n id : Text) (total : Option ℤ) (r s : OrderRecord) (o : Outcome OrderBook)
    → get n o.1 ≡ some s
    → IsTold n id total r s
    → (t : OrderRecord) × (get n (then_fill id total o).1 ≡ some t) × IsTold n id total r t
unfolding apply_cumulative_fill
then_fill-IsTold n id total r s (err e, book) here told = (s, here, told)
then_fill-IsTold n id none r s (ok u, book) here told = (s, here, told)
then_fill-IsTold n id (some c) r s (ok u, book) here told =
    let (t, there, again) =
      on_record-IsTold n id (some c) book (λ x. cumulative_record x c) s here
        (λ same. counted_row n id s c same) in
    (t, there, told_trans n id (some c) r s t told again)
  where
    counted_row :
        (n id : Text) (s : OrderRecord) (c : ℤ)
        → key_eq n id ≡ true
        → IsTold n id (some c) s (cumulative_record s c).1
    counted_row n id s c same = (
      (elim (cumulative_record-filled s c) [
        | inl kept ↦ inl kept
        | inr set ↦ inr (same, ap some (sym set))
      ]),
      cumulative_record-Grows s c,
    )

    told_trans :
        (n id : Text) (total : Option ℤ) (r s t : OrderRecord)
        → IsTold n id total r s
        → IsTold n id total s t
        → IsTold n id total r t
    told_trans n id total r s t (inl p, g) (inl q, k) = (inl (q ∙ p), Grows-trans r s t g k)
    told_trans n id total r s t (inr (same, p), g) (inl q, k) =
        (inr (same, p ∙ ap some (sym q)), Grows-trans r s t g k)
    told_trans n id total r s t (p, g) (inr q, k) = (inr q, Grows-trans r s t g k)

apply_chosen-IsTold :
    (n : Text) (book : OrderBook) (order : BrokerOrderSnapshot) (here r : OrderRecord)
    (result : Result TransitionError (Option BrokerEvent))
    → IsOwn order
    → get order.client_order_id book ≡ some here
    → get n book ≡ some r
    → event_of here order.event order.filled_quantity_ticks ≡ result
    → (s : OrderRecord) × (get n (apply_chosen book order result).1 ≡ some s)
      × IsTold n order.client_order_id order.filled_quantity_ticks r s
unfolding apply_broker_event
apply_chosen-IsTold n book order here r (err e) own known found chosen =
    (r, found, (inl refl, (omega int_laws, refl)))
apply_chosen-IsTold n book order here r (ok none) own known found chosen =
    then_fill-IsTold n order.client_order_id order.filled_quantity_ticks r r (ok tt, book) found
      (inl refl, (omega int_laws, refl))
apply_chosen-IsTold n book order here r (ok (some e)) own known found chosen =
    let id = order.client_order_id in
    let total = order.filled_quantity_ticks in
    let (about, filled) = event_of-own here order.event total e own.1 chosen in
    let this : client_id e ≡ id = about ∙ own.0 in
    let event_row = λ (same : key_eq n id ≡ true).
      let one : here ≡ r =
        ground (arith, known, found, ap (λ k. get k book) ((key_eq_iff n id).0 same)) in
      event_row_told n id total e r same (
        subst
          (λ x.
            ((event_record x e).1.filled_quantity_ticks ≡ x.filled_quantity_ticks)
            ⊎ (total ≡ some (event_record x e).1.filled_quantity_ticks))
          one filled) in
    let (s, there, told) =
      on_record-IsTold n id total book (λ x. event_record x e) r found event_row in
    let moved : get n (apply_broker_event book e).1 ≡ some s =
      ap (λ k. get n (on_record unknown_order book k (λ x. event_record x e)).1) this ∙ there in
    let (t, last, again) = then_fill-IsTold n id total r s (apply_broker_event book e) moved told in
    (t, last, again)
  where
    event_row_told :
        (n id : Text) (total : Option ℤ) (e : BrokerEvent) (r : OrderRecord)
        → key_eq n id ≡ true
        → ((event_record r e).1.filled_quantity_ticks ≡ r.filled_quantity_ticks)
          ⊎ (total ≡ some (event_record r e).1.filled_quantity_ticks)
        → IsTold n id total r (event_record r e).1
    event_row_told n id total e r same (inl kept) = (inl kept, event_record-Grows r e)
    event_row_told n id total e r same (inr set) = (inr (same, set), event_record-Grows r e)

pub observe-IsTold :
    (n : Text) (book : OrderBook) (order : BrokerOrderSnapshot) (r : OrderRecord)
    → IsOwn order
    → get n book ≡ some r
    → (s : OrderRecord) × (get n (observe book order (get order.client_order_id book)).1 ≡ some s)
      × IsTold n order.client_order_id order.filled_quantity_ticks r s
unfolding apply_snapshot_order
observe-IsTold n book order r own found = elim (Option-cases (get order.client_order_id book)) [
  | inl absent ↦ rw absent (r, found, (inl refl, (omega int_laws, refl)))
  | inr (here, known) ↦
      let (s, there, told) =
        apply_chosen-IsTold n book order here r
          (event_of here order.event order.filled_quantity_ticks) own known found refl in
      (
        s,
        ap (λ o. get n (observe book order o).1) known
            ∙ ap (λ o. get n (apply_to_record book order o).1) known
            ∙ there,
        told,
      )
]

totals_told :
    (n : Text) (order : BrokerOrderSnapshot) (quantity : ℤ)
    → key_eq n order.client_order_id ≡ true
    → order.filled_quantity_ticks ≡ some quantity
    → totals n quantity order ≡ true
totals_told n order quantity same total = ground (arith, same, total)

pub observe_all-IsCounted :
    (n : Text) (book : OrderBook) (orders : List BrokerOrderSnapshot) (r : OrderRecord)
    → All IsOwn orders
    → get n book ≡ some r
    → (t : OrderRecord) × (get n (observe_all book orders).1 ≡ some t)
      × IsCounted n orders r t
      × Grows r t
unfolding observe_all
observe_all-IsCounted n book [] r own found = (r, found, inl refl, (omega int_laws, refl))
observe_all-IsCounted n book (order ∷ orders) r (own, others) found =
    let (s, there, (told, more)) = observe-IsTold n book order r own found in
    let (t, last, counted, grown) =
      observe_all-IsCounted n (observe book order (get order.client_order_id book)).1 orders s
        others there in
    (t, last, counted_on n order orders r s t told counted, Grows-trans r s t more grown)
  where
    counted_on :
        (n : Text) (order : BrokerOrderSnapshot) (orders : List BrokerOrderSnapshot)
        (r s t : OrderRecord)
        → (s.filled_quantity_ticks ≡ r.filled_quantity_ticks)
          ⊎ ((key_eq n order.client_order_id ≡ true)
              × (order.filled_quantity_ticks ≡ some s.filled_quantity_ticks))
        → IsCounted n orders s t
        → IsCounted n (order ∷ orders) r t
    counted_on n order orders r s t (inl same) (inl kept) = inl (kept ∙ same)
    counted_on n order orders r s t (inr (same, total)) (inl kept) =
        let first = totals_told n order t.filled_quantity_ticks same (total ∙ ap some (sym kept)) in
        inr (ground (arith, first))
    counted_on n order orders r s t told (inr later) = inr (ground (arith, later))
