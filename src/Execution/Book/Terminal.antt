-- ===== src/Execution/Book/Terminal.antt =====
-- Orders of crates/execution/src/lib.rs that have ended stay as they ended.
use insider_trader.Prelude.{
  ℤ, ◌≡◌, refl, Bool, true, false, Option, some, List, [], ◌∷◌, arith, Option-cases, inl, inr,
  Bool-cases, Text, Result, sym, ap, ◌∙◌,
}
use insider_trader.Maps.{text_key, key_eq, key_eq_iff, get, insert, get-insert}
use insider_trader.Broker.{OrderState, OrderIntent, BrokerEvent}
use insider_trader.Execution.{OrderRecord, OrderBook, legal_transition}
use insider_trader.Execution.Book.{
  on_record, on_record_cases, fresh_record, is_risk_approved, insert_intent, transition_record,
  transition, event_record, apply_broker_event, cumulative_record, apply_cumulative_fill,
  replace_record, prepare_replace, client_id,
}
use insider_trader.Execution.Book.Steps.{
  Call, inserts, moves, observes, counts, replaces, step, run,
}

abbrev pub is_terminal : OrderState → Bool
is_terminal OrderState.filled = true
is_terminal OrderState.cancelled = true
is_terminal OrderState.rejected = true
is_terminal OrderState.expired = true
is_terminal _ = false

-- The lifecycle has no way out of them.
terminal_stays : (s next : OrderState) → is_terminal s ≡ true → legal_transition s next ≡ false
unfolding legal_transition
terminal_stays s next h = ground arith

-- The order that has ended in a state.
abbrev pub EndedIn : OrderState → Text → OrderBook → Type 0
EndedIn s id book = (r : OrderRecord) × (get id book ≡ some r) × (r.intent.state ≡ s)

-- A method that keeps the state of an order that has ended.
abbrev Keeps :
    {E : Type 0} → OrderState → (OrderRecord → Result E (Unit {0}) × OrderRecord) → Type 0
Keeps s f = (r : OrderRecord) → r.intent.state ≡ s → (f r).1.intent.state ≡ s

insert-EndedIn :
    (s : OrderState) (id j : Text) (v : OrderRecord) (book : OrderBook)
    → (id ≡ j → v.intent.state ≡ s)
    → EndedIn s id book
    → EndedIn s id (insert j v book)
insert-EndedIn s id j v book same (r, e, t) = elim (Bool-cases (key_eq id j)) [
  | inl hit ↦ (v, rw (get-insert id j v book, hit) refl, same ((key_eq_iff id j).0 hit))
  | inr miss ↦ (r, rw (get-insert id j v book, miss) e, t)
]

some_state :
    (x r : OrderRecord) (s : OrderState) → some x ≡ some r → r.intent.state ≡ s → x.intent.state ≡ s
some_state x r s e t = cc

on_record-EndedIn :
    {E : Type 0} (s : OrderState) (id j : Text) (missing : E) (book : OrderBook)
    (f : OrderRecord → Result E (Unit {0}) × OrderRecord)
    → Keeps s f
    → EndedIn s id book
    → EndedIn s id (on_record missing book j f).1
on_record-EndedIn s id j missing book f keep (r, e, t) =
    on_record_cases (λ o. EndedIn s id o.1) missing book j f (λ absent. (r, e, t))
      (λ x here.
        insert-EndedIn s id j (f x).1 book
          (λ same. keep x (some_state x r s (sym here ∙ (sym (ap (λ k. get k book) same) ∙ e)) t))
          (r, e, t))

transition_record-Keeps :
    (s next : OrderState) → is_terminal s ≡ true → Keeps s (λ r. transition_record r next)
unfolding transition_record
transition_record-Keeps s next h r t = ground (arith, terminal_stays s next h)

event_record-Keeps :
    (s : OrderState) (event : BrokerEvent)
    → is_terminal s ≡ true
    → Keeps s (λ r. event_record r event)
unfolding event_record
event_record-Keeps s (BrokerEvent.acknowledged id broker_id) h r t =
    ground (arith, terminal_stays s OrderState.acknowledged h)
event_record-Keeps s (BrokerEvent.filled id quantity price) h r t =
    ground
      (arith, terminal_stays s OrderState.filled h, terminal_stays s OrderState.partially_filled h)
event_record-Keeps s (BrokerEvent.rejected id reason) h r t =
    ground (arith, terminal_stays s OrderState.rejected h)
event_record-Keeps s (BrokerEvent.cancelled id) h r t =
    ground (arith, terminal_stays s OrderState.cancelled h)

cumulative_record-Keeps :
    (s : OrderState) (cumulative : ℤ)
    → is_terminal s ≡ true
    → Keeps s (λ r. cumulative_record r cumulative)
unfolding cumulative_record
cumulative_record-Keeps s cumulative h r t =
    ground
      (arith, terminal_stays s OrderState.filled h, terminal_stays s OrderState.partially_filled h)

replace_record-Keeps :
    (s : OrderState) (quantity : ℤ) (price : Option ℤ)
    → is_terminal s ≡ true
    → Keeps s (λ r. replace_record r quantity price)
unfolding replace_record
replace_record-Keeps s quantity price h r t = ground arith

insert_intent-EndedIn :
    (s : OrderState) (id : Text) (book : OrderBook) (intent : OrderIntent)
    → EndedIn s id book
    → EndedIn s id (insert_intent book intent).1
unfolding insert_intent
insert_intent-EndedIn s id book intent (r, e, t) =
    elim (Bool-cases (is_risk_approved intent.state)) [
      | inr f ↦ (r, ground arith, t)
      | inl f ↦ elim (Option-cases (get intent.client_order_id book)) [
        | inr (x, g) ↦ (r, ground arith, t)
        | inl g ↦ (
          r,
          ground (
            arith,
            get-insert id intent.client_order_id (fresh_record intent) book,
            key_eq_iff id intent.client_order_id,
          ),
          t,
        )
      ]
    ]

step-EndedIn :
    (s : OrderState) (id : Text) (book : OrderBook) (c : Call)
    → is_terminal s ≡ true
    → EndedIn s id book
    → EndedIn s id (step book c)
unfolding step transition apply_broker_event apply_cumulative_fill prepare_replace
step-EndedIn s id book (inserts intent) h e = insert_intent-EndedIn s id book intent e
step-EndedIn s id book (moves j next) h e =
    on_record-EndedIn s id j _ book (λ r. transition_record r next)
      (transition_record-Keeps s next h) e
step-EndedIn s id book (observes event) h e =
    on_record-EndedIn s id (client_id event) _ book (λ r. event_record r event)
      (event_record-Keeps s event h) e
step-EndedIn s id book (counts j cumulative) h e =
    on_record-EndedIn s id j _ book (λ r. cumulative_record r cumulative)
      (cumulative_record-Keeps s cumulative h) e
step-EndedIn s id book (replaces j quantity price) h e =
    on_record-EndedIn s id j _ book (λ r. replace_record r quantity price)
      (replace_record-Keeps s quantity price h) e

-- An order that is filled, cancelled, rejected or expired stays in the book in that state, whatever
-- calls follow.
pub run-EndedIn :
    (s : OrderState) (id : Text) (book : OrderBook) (cs : List Call)
    → is_terminal s ≡ true
    → EndedIn s id book
    → EndedIn s id (run book cs)
unfolding run
run-EndedIn s id book [] h e = e
run-EndedIn s id book (c ∷ cs) h e =
    run-EndedIn s id (step book c) cs h (step-EndedIn s id book c h e)
