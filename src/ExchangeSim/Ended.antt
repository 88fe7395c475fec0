-- ===== src/ExchangeSim/Ended.antt =====
-- Orders of crates/exchange-sim/src/lib.rs that were filled or cancelled stay so.
use insider_trader.Prelude.{
  ℕ, ℤ, pos, leb_ℤ, ◌≡◌, refl, ap, ◌∙◌, arith, false, Option, none, some, List, [], ◌∷◌, ◌++◌, Text,
  Bool-cases, inl, inr,
}
use insider_trader.Maps.{text_key, nat_key, key_eq, key_eq_iff, get, insert, get-insert, get-remove}
use insider_trader.Broker.{OrderIntent, BrokerEvent}
use insider_trader.ExchangeSim.Calls.{
  Call, prices, drains, sends, cancels, replaces, step, run, emitted, told, told-append, told_none,
  told_other,
}
use insider_trader.ExchangeSim.{
  PaperBroker, paper_id, candidates, fill_resting, fill_each, match_resting, set_price,
  drain_events, is_marketable, accept_order, send_at, send, cancel_resting, cancel, needs_limit,
  replace_resting, replace,
}

-- An order that is reported with an event, does not rest, and was taken in with an intent or not.
pub record HasEnded (id : Text) (e : BrokerEvent) (a : Option OrderIntent) (b : PaperBroker)
    : Type 0 where
  pub reported : get id b.seen ≡ some e
  pub gone : get id b.resting ≡ none
  pub taken : get id b.accepted ≡ a

-- An order that has ended, with a number of events about it that wait.
record IsQuiet (id : Text) (e : BrokerEvent) (a : Option OrderIntent) (n : ℕ) (b : PaperBroker)
    : Type 0 where
  pub reported : get id b.seen ≡ some e
  pub gone : get id b.resting ≡ none
  pub taken : get id b.accepted ≡ a
  pub waiting : told id b.events ≡ n

-- The broker after a change of another order, or of none.
other_order :
    (id j : Text) (e : BrokerEvent) (a : Option OrderIntent) (n : ℕ) (b : PaperBroker)
    → IsQuiet id e a n b
    → (o : Option OrderIntent) → get j b.resting ≡ o
    → (i : OrderIntent) → o ≡ some i
    → key_eq id j ≡ false
other_order id j e a n b h o here i found = elim (Bool-cases (key_eq id j)) [
  | inl same ↦
      absurd
        (ground (arith, h.gone, ap (λ k. get k b.resting) ((key_eq_iff id j).0 same), here, found))
  | inr other ↦ other
]

fill_resting-IsQuiet :
    (id j : Text) (e : BrokerEvent) (a : Option OrderIntent) (n : ℕ) (b : PaperBroker) (price : ℤ)
    (o : Option OrderIntent)
    → get j b.resting ≡ o
    → IsQuiet id e a n b
    → IsQuiet id e a n (fill_resting b j price o)
fill_resting-IsQuiet id j e a n b price none here h = h
fill_resting-IsQuiet id j e a n b price (some i) here h =
    let other = other_order id j e a n b h (some i) here i refl in
    let filled = BrokerEvent.filled j i.quantity_ticks price in
    record {
      reported = ground (arith, h.reported, other, get-insert id j filled b.seen);
      gone = ground (arith, h.gone, other, get-remove id j b.resting);
      taken = h.taken;
      waiting = told_other id b.events filled other ∙ h.waiting;
    }

fill_each-IsQuiet :
    (id : Text) (e : BrokerEvent) (a : Option OrderIntent) (n : ℕ) (b : PaperBroker) (price : ℤ)
    (ids : List Text)
    → IsQuiet id e a n b
    → IsQuiet id e a n (fill_each b price ids)
unfolding fill_each
fill_each-IsQuiet id e a n b price [] h = h
fill_each-IsQuiet id e a n b price (j ∷ ids) h =
    fill_each-IsQuiet id e a n (fill_resting b j price (get j b.resting)) price ids
      (fill_resting-IsQuiet id j e a n b price (get j b.resting) refl h)

set_price-IsQuiet :
    (id : Text) (e : BrokerEvent) (a : Option OrderIntent) (n : ℕ) (b : PaperBroker)
    (instrument : ℕ) (price : ℤ)
    → IsQuiet id e a n b
    → IsQuiet id e a n (set_price b instrument price).1
unfolding set_price match_resting
set_price-IsQuiet id e a n b instrument price h = elim (Bool-cases (leb_ℤ price (pos 0))) [
  | inl bad ↦ rw bad h
  | inr good ↦
      let b2 : PaperBroker = record b { prices = insert instrument price b.prices } in
      rw good (
        fill_each-IsQuiet id e a n b2 price (candidates b.resting instrument price)
          (record { reported = h.reported; gone = h.gone; taken = h.taken; waiting = h.waiting }))
]

accept_order-IsQuiet :
    (id : Text) (e : BrokerEvent) (a : Option OrderIntent) (n : ℕ) (b : PaperBroker)
    (intent : OrderIntent) (price : ℤ)
    → key_eq id intent.client_order_id ≡ false
    → IsQuiet id e a n b
    → IsQuiet id e a n (accept_order b intent price)
unfolding accept_order
accept_order-IsQuiet id e a n b intent price other h =
    let j = intent.client_order_id in
    let acknowledged = BrokerEvent.acknowledged j (paper_id b.next_order_id) in
    let filled = BrokerEvent.filled j intent.quantity_ticks price in
    let first = told_other id b.events acknowledged other ∙ h.waiting in
    let accepted : get id (insert j intent b.accepted) ≡ a =
      get-insert id j intent b.accepted ∙ (rw other h.taken) in
    elim (Bool-cases (is_marketable intent price)) [
      | inl now ↦ rw now (record {
        reported = get-insert id j _ b.seen ∙ (rw other h.reported);
        gone = h.gone;
        taken = accepted;
        waiting = told_other id (b.events ++ (acknowledged ∷ [])) filled other ∙ first;
      })
      | inr later ↦ rw later (record {
        reported = get-insert id j _ b.seen ∙ (rw other h.reported);
        gone = get-insert id j intent b.resting ∙ (rw other h.gone);
        taken = accepted;
        waiting = first;
      })
    ]

send_at-IsQuiet :
    (id : Text) (e : BrokerEvent) (a : Option OrderIntent) (n : ℕ) (b : PaperBroker)
    (intent : OrderIntent) (p : Option ℤ) (o : Option BrokerEvent)
    → get intent.client_order_id b.seen ≡ o
    → IsQuiet id e a n b
    → IsQuiet id e a n (send_at b intent p o).1
send_at-IsQuiet id e a n b intent none o here h = h
send_at-IsQuiet id e a n b intent (some price) (some known) here h = h
send_at-IsQuiet id e a n b intent (some price) none here h =
    elim (Bool-cases (key_eq id intent.client_order_id)) [
      | inl same ↦ absurd (
          ground (
            arith,
            h.reported,
            ap (λ k. get k b.seen) ((key_eq_iff id intent.client_order_id).0 same),
            here,
          ))
      | inr other ↦ accept_order-IsQuiet id e a n b intent price other h
    ]

send-IsQuiet :
    (id : Text) (e : BrokerEvent) (a : Option OrderIntent) (n : ℕ) (b : PaperBroker)
    (intent : OrderIntent)
    → IsQuiet id e a n b
    → IsQuiet id e a n (send b intent).1
unfolding send
send-IsQuiet id e a n b intent h = elim (Bool-cases (leb_ℤ intent.quantity_ticks (pos 0))) [
  | inl bad ↦ rw bad h
  | inr good ↦ rw good (
      send_at-IsQuiet id e a n b intent (get intent.instrument_id b.prices)
        (get intent.client_order_id b.seen) refl h)
]

cancel_resting-IsQuiet :
    (id j : Text) (e : BrokerEvent) (a : Option OrderIntent) (n : ℕ) (b : PaperBroker)
    (o : Option OrderIntent)
    → get j b.resting ≡ o
    → IsQuiet id e a n b
    → IsQuiet id e a n (cancel_resting b j o).1
cancel_resting-IsQuiet id j e a n b none here h = h
cancel_resting-IsQuiet id j e a n b (some i) here h =
    let other = other_order id j e a n b h (some i) here i refl in
    record {
      reported =
          ground (arith, h.reported, other, get-insert id j (BrokerEvent.cancelled j) b.seen);
      gone = ground (arith, h.gone, other, get-remove id j b.resting);
      taken = h.taken;
      waiting = told_other id b.events (BrokerEvent.cancelled j) other ∙ h.waiting;
    }

replace_resting-IsQuiet :
    (id j : Text) (e : BrokerEvent) (a : Option OrderIntent) (n : ℕ) (b : PaperBroker)
    (quantity : ℤ) (limit : Option ℤ) (o : Option OrderIntent)
    → get j b.resting ≡ o
    → IsQuiet id e a n b
    → IsQuiet id e a n (replace_resting b j quantity limit o).1
replace_resting-IsQuiet id j e a n b quantity limit none here h = h
replace_resting-IsQuiet id j e a n b quantity limit (some i) here h =
    let other = other_order id j e a n b h (some i) here i refl in
    elim (Bool-cases (needs_limit i limit)) [
      | inl bad ↦ rw bad h
      | inr good ↦ rw good (record {
        reported = h.reported;
        taken = h.taken;
        waiting = h.waiting;
        gone =
            get-insert id j (record i { quantity_ticks = quantity; limit_price_ticks = limit })
              b.resting
            ∙ (rw other h.gone);
      })
    ]

replace-IsQuiet :
    (id j : Text) (e : BrokerEvent) (a : Option OrderIntent) (n : ℕ) (b : PaperBroker)
    (quantity : ℤ) (limit : Option ℤ)
    → IsQuiet id e a n b
    → IsQuiet id e a n (replace b j quantity limit).1
unfolding replace
replace-IsQuiet id j e a n b quantity limit h = elim (Bool-cases (leb_ℤ quantity (pos 0))) [
  | inl bad ↦ rw bad h
  | inr good ↦
      rw good (replace_resting-IsQuiet id j e a n b quantity limit (get j b.resting) refl h)
]

run-IsQuiet :
    (id : Text) (e : BrokerEvent) (a : Option OrderIntent) (n : ℕ) (b : PaperBroker)
    (cs : List Call)
    → IsQuiet id e a n b
    → HasEnded id e a (run b cs) × (told id (emitted b cs) ≡ n)
unfolding run step cancel emitted
run-IsQuiet id e a n b [] h =
    (record { reported = h.reported; gone = h.gone; taken = h.taken }, h.waiting)
run-IsQuiet id e a n b (prices instrument price ∷ cs) h =
    run-IsQuiet id e a n (set_price b instrument price).1 cs
      (set_price-IsQuiet id e a n b instrument price h)
run-IsQuiet id e a n b (drains ∷ cs) h =
    let next = (drain_events b).1 in
    let (ended, silent) =
      run-IsQuiet id e a 0 next cs (record {
        reported = h.reported;
        gone = h.gone;
        taken = h.taken;
        waiting = told_none id;
      }) in
    (ended, omega (arith, told-append id b.events (emitted next cs), silent, h.waiting))
run-IsQuiet id e a n b (sends intent ∷ cs) h =
    run-IsQuiet id e a n (send b intent).1 cs (send-IsQuiet id e a n b intent h)
run-IsQuiet id e a n b (cancels j ∷ cs) h =
    run-IsQuiet id e a n (cancel b j).1 cs
      (cancel_resting-IsQuiet id j e a n b (get j b.resting) refl h)
run-IsQuiet id e a n b (replaces j quantity limit ∷ cs) h =
    run-IsQuiet id e a n (replace b j quantity limit).1 cs
      (replace-IsQuiet id j e a n b quantity limit h)

-- An order that was reported with an event and does not rest stays as it was reported, whatever
-- calls follow: it does not rest again, the intent under its id is the one that was taken in before,
-- and the broker gives out no event about it but those that were waiting already, so it is not
-- filled, cancelled or acknowledged again.
pub run-HasEnded :
    (id : Text) (e : BrokerEvent) (a : Option OrderIntent) (b : PaperBroker) (cs : List Call)
    → HasEnded id e a b
    → HasEnded id e a (run b cs) × (told id (emitted b cs) ≡ told id b.events)
run-HasEnded id e a b cs h =
    run-IsQuiet id e a (told id b.events) b cs
      (record { reported = h.reported; gone = h.gone; taken = h.taken; waiting = refl })
