-- ===== src/ExchangeSim/OrderIds.antt =====
-- The order ids that crates/exchange-sim/src/lib.rs gives to an order that rests.
use insider_trader.Prelude.{
  ℕ, ◌+◌, ◌/◌, ◌%◌, ◌<◌, ◌≡◌, ◌≢◌, refl, ap, ◌∙◌, arith, ℤ, pos, leb_ℤ, ltb, true, false, none,
  some, [], ◌∷◌, ◌++◌, Text, decimal, decimal_digits, ok, err, Bool-cases, inl, inr, u64_max,
  saturating_add_u64,
}
use insider_trader.Maps.{text_key, nat_key, key_eq, key_eq_iff, get, get-insert_self}
use insider_trader.Broker.{OrderIntent, BrokerEvent}
use insider_trader.Execution.{OrderRecord, mismatched_order}
use insider_trader.Execution.Book.{event_record, transition_record, is_acknowledged}
use insider_trader.ExchangeSim.{PaperBroker, paper_id, is_marketable, accept_order, send, reconcile}

-- The last character of a text.
abbrev last_of : ℕ → Text → ℕ
last_of d [] = d
last_of d (c ∷ cs) = last_of c cs

last_of-append : (d c : ℕ) (xs : Text) → last_of d (xs ++ (c ∷ [])) ≡ c
last_of-append d c [] = refl
last_of-append d c (x ∷ xs) = last_of-append x c xs

last_of-paper_id : (n : ℕ) → last_of 0 (paper_id n) ≡ 48 + n % 10
unfolding paper_id decimal decimal_digits
last_of-paper_id n = elim (Bool-cases (ltb n 10)) [
  | inl small ↦ rw small (omega (arith, ten n small))
  | inr large ↦ rw large (last_of-append 45 (48 + n % 10) (decimal_digits 19 (n / 10)))
]
  where
    ten : (n : ℕ) → ltb n 10 ≡ true → n < 10
    ten n h = ground (arith, h)

paper_id_next : (n : ℕ) → paper_id n ≢ paper_id (n + 1)
paper_id_next n e = omega (arith, ap (last_of 0) e, last_of-paper_id n, last_of-paper_id (n + 1))

-- A record that took one acknowledgement refuses the next with another id.
acknowledged_twice :
    (r : OrderRecord) (id first second : Text)
    → first ≢ second
    → is_acknowledged r.intent.state ≡ false
    → (event_record r (BrokerEvent.acknowledged id first)).0 ≡ ok tt
    → (event_record
        (event_record r (BrokerEvent.acknowledged id first)).1
        (BrokerEvent.acknowledged id second)).0
      ≡ err mismatched_order
unfolding event_record transition_record
acknowledged_twice r id first second differ fresh taken =
    let other : key_eq first second ≡ false = elim (Bool-cases (key_eq first second)) [
      | inl same ↦ absurd (differ ((key_eq_iff first second).0 same))
      | inr different ↦ different
    ] in
    ground (arith, fresh, taken, other)

sent_order :
    (b : PaperBroker) (intent : OrderIntent) (price : ℤ)
    → leb_ℤ intent.quantity_ticks (pos 0) ≡ false
    → get intent.instrument_id b.prices ≡ some price
    → get intent.client_order_id b.seen ≡ none
    → send b intent ≡ (ok tt, accept_order b intent price)
unfolding send
sent_order b intent price positive marked new = rw (positive, marked, new, send) refl

-- An order that rests is acknowledged under one number and reported under the next: a record of an
-- order book that has taken the acknowledgement refuses what the broker reports of the order.
pub send-reconcile :
    (b : PaperBroker) (intent : OrderIntent) (price : ℤ) (r : OrderRecord)
    → leb_ℤ intent.quantity_ticks (pos 0) ≡ false
    → get intent.instrument_id b.prices ≡ some price
    → get intent.client_order_id b.seen ≡ none
    → is_marketable intent price ≡ false
    → b.next_order_id < u64_max
    → is_acknowledged r.intent.state ≡ false
    → (event_record r
        (BrokerEvent.acknowledged intent.client_order_id (paper_id b.next_order_id))).0
      ≡ ok tt
    → let id = intent.client_order_id in
      let emitted = BrokerEvent.acknowledged id (paper_id b.next_order_id) in
      let reported = BrokerEvent.acknowledged id (paper_id (b.next_order_id + 1)) in
      let after = (send b intent).1 in
      (after.events ≡ b.events ++ (emitted ∷ []))
      × (reconcile after id ≡ some reported)
      × ((event_record (event_record r emitted).1 reported).0 ≡ err mismatched_order)
unfolding accept_order
send-reconcile b intent price r positive marked new resting bound fresh taken =
    let id = intent.client_order_id in
    let n = b.next_order_id in
    let s = sent_order b intent price positive marked new in
    let next : saturating_add_u64 n 1 ≡ n + 1 = omega (arith, bound) in
    (
      ap (λ o. o.1.events) s ∙ (rw resting refl),
      ap (λ o. reconcile o.1 id) s
          ∙ (rw resting (get-insert_self id _ b.seen))
          ∙ ap (λ k. some (BrokerEvent.acknowledged id (paper_id k))) next,
      acknowledged_twice r id (paper_id n) (paper_id (n + 1)) (paper_id_next n) fresh taken,
    )
