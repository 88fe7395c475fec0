-- ===== src/Execution/Children/Settled.antt =====
-- The filled quantities and the ended children of a plan of crates/execution/src/lib.rs.
use insider_trader.Prelude.{
  eq_of_parts, ◌+◌, Option-cases, Bool-cases, inl, inr, add_u64, leb, ℕ, ℤ, pos, ◌≡◌, refl, ◌∙◌,
  ◌≤ℤ◌, ◌+ℤ◌, Bool, true, false, ◌&&◌, ◌||◌, List, [], ◌∷◌, map, arith, +ℤ_parts, all, All, Text,
  ok,
}
use insider_trader.Maps.{text_key, key_eq}
use insider_trader.Broker.{OrderIntent, BrokerEvent}
use insider_trader.Execution.Schedule.{Schedule, ChildOrder}
use insider_trader.Execution.Schedule.Conserved.{AreChildrenOf}
use insider_trader.Execution.Children.Started.{new-AreChildrenOf}
use insider_trader.Execution.Children.{
  ChildRecord, ChildPlan, ChildState, Outcome, planned, new, is_pending, claim_loop, claim_due,
  on_child, mark_sent, mark_unknown, fill_child, event_child, apply_broker_event, request_cancel,
  client_id, move, is_sending, is_sending_or_sent, is_active, is_awaiting, is_cancel_pending,
  is_filled, is_settled, is_complete,
}
use insider_trader.Execution.Children.Steps.{
  Call, claims, sends, doubts, cancels, observes, step, run,
}

-- The filled quantity lies between none and all of the child's, and is all of it when it is filled.
pub record IsFillable (r : ChildRecord) : Type 0 where
  pub lower : pos 0 ≤ℤ r.filled_quantity_ticks
  pub upper : r.filled_quantity_ticks ≤ℤ r.order.quantity_ticks
  pub whole : is_filled r.state ≡ true → r.filled_quantity_ticks ≡ r.order.quantity_ticks

-- What a call may do to a child: its order stays, its quantity stays in its bounds, and a child
-- that has ended stays as it is.
pub record IsKept (r next : ChildRecord) : Type 0 where
  pub same_order : next.order ≡ r.order
  pub ended : is_settled r.state ≡ true → next ≡ r
  pub within : IsFillable r → IsFillable next

-- The same of the children of a plan, each in its place.
abbrev pub AreKept : List ChildRecord → List ChildRecord → Type 0
AreKept [] [] = Unit
AreKept [] (s ∷ ss) = ⊥
AreKept (r ∷ rs) [] = ⊥
AreKept (r ∷ rs) (s ∷ ss) = IsKept r s × AreKept rs ss

IsKept-refl : (r : ChildRecord) → IsKept r r
IsKept-refl r = record { same_order = refl; ended = λ e. refl; within = λ h. h }

IsKept-trans : (r s t : ChildRecord) → IsKept r s → IsKept s t → IsKept r t
IsKept-trans r s t f g = record {
  same_order = g.same_order ∙ f.same_order;
  ended = λ e.
      let first = f.ended e in
      let then_kept : is_settled s.state ≡ true = rw first e in g.ended then_kept ∙ first;
  within = λ h. g.within (f.within h);
}

AreKept-refl : (rs : List ChildRecord) → AreKept rs rs
AreKept-refl [] = tt
AreKept-refl (r ∷ rs) = (IsKept-refl r, AreKept-refl rs)

AreKept-trans : (rs ss ts : List ChildRecord) → AreKept rs ss → AreKept ss ts → AreKept rs ts
AreKept-trans [] [] [] f g = tt
AreKept-trans [] [] (t ∷ ts) f g = elim g [ ]
AreKept-trans [] (s ∷ ss) ts f g = elim f [ ]
AreKept-trans (r ∷ rs) [] ts f g = elim f [ ]
AreKept-trans (r ∷ rs) (s ∷ ss) [] f g = elim g [ ]
AreKept-trans (r ∷ rs) (s ∷ ss) (t ∷ ts) (f, fs) (g, gs) =
    (IsKept-trans r s t f g, AreKept-trans rs ss ts fs gs)

move-IsKept :
    (legal : Bool) (next : ChildState) (r : ChildRecord)
    → (legal ≡ true → is_settled r.state ≡ false)
    → is_filled next ≡ false
    → IsKept r (move legal next r).1
move-IsKept true next r h f = record {
  same_order = refl;
  ended = λ e. ground (arith, h refl, e);
  within = λ k. record { lower = k.lower; upper = k.upper; whole = λ e. ground (arith, e, f) };
}
move-IsKept false next r h f = IsKept-refl r

claimed-IsKept :
    (r : ChildRecord)
    → is_pending r.state ≡ true
    → IsKept r (record r { state = ChildState.sending })
claimed-IsKept r e = move-IsKept true ChildState.sending r (λ z. ground (arith, e)) refl

claim_loop-AreKept :
    (created now : ℕ) (rs : List ChildRecord) → AreKept rs (claim_loop created now rs).1
unfolding claim_loop
claim_loop-AreKept created now [] = tt
claim_loop-AreKept created now (r ∷ rs) =
    let rest = claim_loop-AreKept created now rs in
    elim (Option-cases (add_u64 created r.order.due_after_ns)) [
      | inl e ↦ rw (e, claim_loop) (IsKept-refl r, AreKept-refl rs)
      | inr (due, e) ↦ elim (Bool-cases (is_pending r.state && leb due now)) [
        | inl f ↦ rw (e, f, claim_loop) (claimed-IsKept r (ground (arith, f)), rest)
        | inr f ↦ rw (e, f, claim_loop) (IsKept-refl r, rest)
      ]
    ]

on_child-AreKept :
    (id : Text) (f : ChildRecord → Outcome ChildRecord) (rs : List ChildRecord)
    → ((r : ChildRecord) → IsKept r (f r).1)
    → AreKept rs (on_child id f rs).1
unfolding on_child
on_child-AreKept id f [] h = tt
on_child-AreKept id f (r ∷ rs) h = elim (Bool-cases (key_eq r.order.client_order_id id)) [
  | inl e ↦ rw (e, on_child) (h r, AreKept-refl rs)
  | inr e ↦ rw (e, on_child) (IsKept-refl r, on_child-AreKept id f rs h)
]

fill_child-IsKept : (quantity : ℤ) (r : ChildRecord) → IsKept r (fill_child quantity r).1
unfolding fill_child
fill_child-IsKept quantity r = record {
  same_order = ground arith;
  ended = λ e. ground (arith, e);
  within = λ h. record {
    lower = ground (arith, h.lower, +ℤ_parts r.filled_quantity_ticks quantity);
    upper = ground (arith, h.upper, +ℤ_parts r.filled_quantity_ticks quantity);
    whole =
        ground (
          arith,
          h.whole,
          eq_of_parts (r.filled_quantity_ticks +ℤ quantity) r.order.quantity_ticks,
        );
  };
}

event_child-IsKept : (event : BrokerEvent) (r : ChildRecord) → IsKept r (event_child event r).1
unfolding event_child
event_child-IsKept (BrokerEvent.acknowledged id broker_id) r = record {
  same_order = ground arith;
  ended = λ e. ground (arith, e);
  within = λ h. record {
    lower = ground (arith, h.lower);
    upper = ground (arith, h.upper);
    whole = λ e. ground (arith, e, h.whole);
  };
}
event_child-IsKept (BrokerEvent.filled id quantity price) r = fill_child-IsKept quantity r
event_child-IsKept (BrokerEvent.rejected id reason) r =
    move-IsKept (is_awaiting r.state) ChildState.rejected r (λ e. ground arith) refl
event_child-IsKept (BrokerEvent.cancelled id) r =
    move-IsKept (is_awaiting r.state || is_cancel_pending r.state) ChildState.cancelled r
      (λ e. ground arith) refl

step-AreKept : (plan : ChildPlan) (c : Call) → AreKept plan.children (step plan c).1.children
unfolding step claim_due mark_sent mark_unknown apply_broker_event request_cancel
step-AreKept plan (claims now) = claim_loop-AreKept plan.created_mono_ns now plan.children
step-AreKept plan (sends id) =
    on_child-AreKept id (λ r. move (is_sending r.state) ChildState.sent r) plan.children
      (λ r. move-IsKept (is_sending r.state) ChildState.sent r (λ e. ground arith) refl)
step-AreKept plan (doubts id) =
    on_child-AreKept id (λ r. move (is_sending_or_sent r.state) ChildState.unknown r) plan.children
      (λ r. move-IsKept (is_sending_or_sent r.state) ChildState.unknown r (λ e. ground arith) refl)
step-AreKept plan (cancels id) =
    on_child-AreKept id (λ r. move (is_active r.state) ChildState.cancel_pending r) plan.children
      (λ r. move-IsKept (is_active r.state) ChildState.cancel_pending r (λ e. ground arith) refl)
step-AreKept plan (observes event) =
    on_child-AreKept (client_id event) (event_child event) plan.children (event_child-IsKept event)

-- Any sequence of calls keeps the children of a plan, each in its place: its order stays; its
-- filled quantity, where it lay between none and all of the child's, all of it when filled, lies
-- so after; and a child that is filled, cancelled or rejected stays as it is.
pub run-AreKept :
    (plan : ChildPlan) (calls : List Call) → AreKept plan.children (run plan calls).1.children
unfolding run
run-AreKept plan [] = AreKept-refl plan.children
run-AreKept plan (c ∷ cs) =
    let next = (step plan c).1 in
    AreKept-trans plan.children next.children (run next cs).1.children (step-AreKept plan c)
      (run-AreKept next cs)

settled-same :
    (rs ss : List ChildRecord) → AreKept rs ss → all (λ r. is_settled r.state) rs ≡ true → ss ≡ rs
settled-same [] [] h e = refl
settled-same [] (s ∷ ss) h e = elim h [ ]
settled-same (r ∷ rs) [] h e = elim h [ ]
settled-same (r ∷ rs) (s ∷ ss) (f, fs) e =
    let here : is_settled r.state ≡ true = ground (arith, e) in
    let others : all (λ r. is_settled r.state) rs ≡ true = ground (arith, e) in
    rw (f.ended here, settled-same rs ss fs others) refl

-- A complete plan stays complete, with all its children as they are, in any sequence of calls.
pub run-is_complete :
    (plan : ChildPlan) (calls : List Call)
    → is_complete plan ≡ true
    → (run plan calls).1.children ≡ plan.children
unfolding is_complete
run-is_complete plan calls h =
    settled-same plan.children (run plan calls).1.children (run-AreKept plan calls) h

kept-AreFillable :
    (rs ss : List ChildRecord) → AreKept rs ss → All IsFillable rs → All IsFillable ss
kept-AreFillable [] [] k h = tt
kept-AreFillable [] (s ∷ ss) k h = elim k [ ]
kept-AreFillable (r ∷ rs) [] k h = elim k [ ]
kept-AreFillable (r ∷ rs) (s ∷ ss) (k, ks) (h, hs) = (k.within h, kept-AreFillable rs ss ks hs)

planned-AreFillable :
    (intent : OrderIntent) (n : ℕ) (cs : List ChildOrder)
    → AreChildrenOf intent n cs
    → All IsFillable (map planned cs)
planned-AreFillable intent n [] h = tt
planned-AreFillable intent n (c ∷ cs) (here, others) = (
  record { lower = omega arith; upper = omega (arith, here.positive); whole = λ e. cc },
  planned-AreFillable intent (n + 1) cs others,
)

-- After any sequence of calls on a new plan, no child is filled beyond its quantity or below
-- zero, and a child that counts as filled has exactly its quantity.
pub new-run-AreFillable :
    (intent : OrderIntent) (schedule : Schedule) (created : ℕ) (plan : ChildPlan)
    (calls : List Call)
    → new intent schedule created ≡ ok plan
    → All IsFillable (run plan calls).1.children
new-run-AreFillable intent schedule created plan calls h =
    let (children, same, each) = new-AreChildrenOf intent schedule created plan h in
    let fresh : All IsFillable plan.children =
      rw same (planned-AreFillable intent 1 children each) in
    kept-AreFillable plan.children (run plan calls).1.children (run-AreKept plan calls) fresh
