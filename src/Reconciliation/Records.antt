-- ===== src/Reconciliation/Records.antt =====
-- What the events and the cumulative quantities of a snapshot, which
-- crates/reconciliation/src/lib.rs takes from the broker, make of the filled quantity of one order.
use insider_trader.Prelude.{
  ℤ, pos, ◌+ℤ◌, ◌-ℤ◌, ◌≤ℤ◌, int_laws, ◌≡◌, refl, sym, ap, ◌∙◌, subst, arith, true, Option, none,
  some, is_some, ok, inl, inr, ◌⊎◌, ◌<ℤ◌,
}
use insider_trader.Maps.{text_key}
use insider_trader.Broker.{OrderIntent, BrokerEvent}
use insider_trader.Execution.{OrderRecord}
use insider_trader.Execution.Book.{
  event_record, fill_record, transition_record, cumulative_record, client_id,
}
use insider_trader.Reconciliation.{event_of}

-- A fill that comes with the cumulative quantity.
abbrev pub IsTotalled : BrokerEvent → Option ℤ → Type 0
IsTotalled (BrokerEvent.filled id quantity price) cumulative = is_some cumulative ≡ true
IsTotalled (BrokerEvent.acknowledged id broker_id) cumulative = Unit
IsTotalled (BrokerEvent.rejected id reason) cumulative = Unit
IsTotalled (BrokerEvent.cancelled id) cumulative = Unit

-- No less is filled, and of the intent only the state may change.
abbrev pub Grows : OrderRecord → OrderRecord → Type 0
Grows r s =
    (r.filled_quantity_ticks ≤ℤ s.filled_quantity_ticks)
    × (s.intent ≡ record r.intent { state = s.intent.state })

cut_total : (c q : ℤ) → q +ℤ (c -ℤ q) ≡ c
cut_total c q = omega int_laws

-- What an event other than a fill, or a fill of some quantity, makes of the filled quantity.
event_record-filled :
    (r : OrderRecord) (event : BrokerEvent)
    → IsTotalled event none
    → (event_record r event).1.filled_quantity_ticks ≡ r.filled_quantity_ticks
unfolding event_record transition_record
event_record-filled r (BrokerEvent.acknowledged id b) h = ground arith
event_record-filled r (BrokerEvent.filled id q p) h = cc
event_record-filled r (BrokerEvent.rejected id x) h = ground arith
event_record-filled r (BrokerEvent.cancelled id) h = ground arith

fill_record-filled :
    (r : OrderRecord) (quantity price : ℤ)
    → ((fill_record r quantity price).1.filled_quantity_ticks ≡ r.filled_quantity_ticks)
      ⊎ (((fill_record r quantity price).1.filled_quantity_ticks
            ≡ r.filled_quantity_ticks +ℤ quantity)
          × (pos 0 <ℤ quantity))
unfolding fill_record transition_record
fill_record-filled r quantity price = ground arith

pub cumulative_record-filled :
    (r : OrderRecord) (c : ℤ)
    → ((cumulative_record r c).1.filled_quantity_ticks ≡ r.filled_quantity_ticks)
      ⊎ ((cumulative_record r c).1.filled_quantity_ticks ≡ c)
unfolding cumulative_record transition_record
cumulative_record-filled r c = ground arith

fill_record-intent :
    (r : OrderRecord) (quantity price : ℤ)
    → let after = (fill_record r quantity price).1 in
      after.intent ≡ record r.intent { state = after.intent.state }
unfolding fill_record transition_record
fill_record-intent r quantity price = ground arith

fill_record-Grows :
    (r : OrderRecord) (quantity price : ℤ) → Grows r (fill_record r quantity price).1
fill_record-Grows r quantity price = (
  (elim (fill_record-filled r quantity price) [
    | inl same ↦ subst (λ x. r.filled_quantity_ticks ≤ℤ x) (sym same) (omega int_laws)
    | inr (more, positive) ↦
        subst (λ x. r.filled_quantity_ticks ≤ℤ x) (sym more) (omega (int_laws, positive))
  ]),
  fill_record-intent r quantity price,
)

pub event_record-Grows : (r : OrderRecord) (event : BrokerEvent) → Grows r (event_record r event).1
unfolding event_record transition_record
event_record-Grows r (BrokerEvent.acknowledged id b) = ground arith
event_record-Grows r (BrokerEvent.filled id q p) = fill_record-Grows r q p
event_record-Grows r (BrokerEvent.rejected id x) = ground arith
event_record-Grows r (BrokerEvent.cancelled id) = ground arith

pub cumulative_record-Grows : (r : OrderRecord) (c : ℤ) → Grows r (cumulative_record r c).1
unfolding cumulative_record transition_record
cumulative_record-Grows r c = ground arith

pub Grows-trans : (r s t : OrderRecord) → Grows r s → Grows s t → Grows r t
Grows-trans r s t (p, e) (q, d) =
    let in_state : OrderIntent → OrderIntent = λ i. record i { state = t.intent.state } in
    (omega (int_laws, p, q), d ∙ ap in_state e)

-- The event that a row gives is about the order of the row, and fills it to the total at most.
pub event_of-own :
    (r : OrderRecord) (event : BrokerEvent) (total : Option ℤ) (e : BrokerEvent)
    → IsTotalled event total
    → event_of r event total ≡ ok (some e)
    → (client_id e ≡ client_id event)
      × (((event_record r e).1.filled_quantity_ticks ≡ r.filled_quantity_ticks)
          ⊎ (total ≡ some (event_record r e).1.filled_quantity_ticks))
unfolding event_of event_record
event_of-own r (BrokerEvent.filled id q p) none e t h = cc
event_of-own r (BrokerEvent.filled id q p) (some c) e t h =
    let cut : e ≡ BrokerEvent.filled id (c -ℤ r.filled_quantity_ticks) p = ground (arith, h) in
    rw cut (
      refl,
      (elim (fill_record-filled r (c -ℤ r.filled_quantity_ticks) p) [
        | inl same ↦ inl same
        | inr (more, positive) ↦ inr (ap some (sym (more ∙ cut_total c r.filled_quantity_ticks)))
      ]),
    )
event_of-own r (BrokerEvent.acknowledged id b) total e t h =
    let this : e ≡ BrokerEvent.acknowledged id b = ground (arith, h) in
    rw this (refl, inl (event_record-filled r (BrokerEvent.acknowledged id b) tt))
event_of-own r (BrokerEvent.rejected id x) total e t h =
    let this : e ≡ BrokerEvent.rejected id x = ground (arith, h) in
    rw this (refl, inl (event_record-filled r (BrokerEvent.rejected id x) tt))
event_of-own r (BrokerEvent.cancelled id) total e t h =
    let this : e ≡ BrokerEvent.cancelled id = ground (arith, h) in
    rw this (refl, inl (event_record-filled r (BrokerEvent.cancelled id) tt))
