-- ===== src/Execution/Children/Claims.antt =====
-- The children of crates/execution/src/lib.rs that a plan hands out to be sent.
use insider_trader.Prelude.{
  u64_max, ◌<◌, ap, ◌∙◌, some, none, leb, ◌&&◌, ℕ, ℤ, refl, ◌+◌, ◌≤◌, ◌≡◌, Bool, true, false, List,
  [], ◌∷◌, ◌++◌, arith, ◌==◌, if◌then◌else◌, Text, err, add_u64,
}
use insider_trader.Maps.{text_key}
use insider_trader.Broker.{BrokerEvent}
use insider_trader.Execution.Schedule.{ChildOrder, invalid_schedule}
use insider_trader.Execution.Children.{
  with_children, ChildRecord, ChildPlan, ChildState, Outcome, is_pending, claim_loop, claim_due,
  on_child, mark_sent, mark_unknown, fill_child, event_child, apply_broker_event, request_cancel,
  client_id, move, is_sending, is_sending_or_sent, is_active,
}
use insider_trader.Execution.Children.Steps.{
  Call, claims, sends, doubts, cancels, observes, claimed_orders, step, run,
}

-- How many of the orders have a number, and how many pending children.
unfoldable pub count : ℕ → List ChildOrder → ℕ
count k [] = 0
count k (c ∷ cs) = (if c.child_sequence == k then 1 else 0) + count k cs

abbrev pub waits : ℕ → ChildRecord → ℕ
waits k r = if is_pending r.state then (if r.order.child_sequence == k then 1 else 0) else 0

unfoldable pub waiting : ℕ → List ChildRecord → ℕ
waiting k [] = 0
waiting k (r ∷ rs) = waits k r + waiting k rs

count-append : (k : ℕ) (xs ys : List ChildOrder) → count k (xs ++ ys) ≡ count k xs + count k ys
unfolding count
count-append k [] ys = omega arith
count-append k (x ∷ xs) ys = omega (arith, count-append k xs ys)

claim_loop-waiting :
    (k created now : ℕ) (rs : List ChildRecord)
    → count k (claimed_orders (claim_loop created now rs).0)
        + waiting k (claim_loop created now rs).1
      ≤ waiting k rs
unfolding claim_loop count waiting
claim_loop-waiting k created now [] = omega arith
claim_loop-waiting k created now (r ∷ rs) = ground (arith, claim_loop-waiting k created now rs)

on_child-waiting :
    (k : ℕ) (id : Text) (f : ChildRecord → Outcome ChildRecord) (rs : List ChildRecord)
    → ((r : ChildRecord) → waits k (f r).1 ≤ waits k r)
    → waiting k (on_child id f rs).1 ≤ waiting k rs
unfolding on_child waiting
on_child-waiting k id f [] h = omega arith
on_child-waiting k id f (r ∷ rs) h = ground (arith, h r, on_child-waiting k id f rs h)

move-waits :
    (k : ℕ) (legal : Bool) (next : ChildState) (r : ChildRecord)
    → is_pending next ≡ false
    → waits k (move legal next r).1 ≤ waits k r
move-waits k legal next r h = ground (arith, h)

fill_child-waits :
    (k : ℕ) (quantity : ℤ) (r : ChildRecord) → waits k (fill_child quantity r).1 ≤ waits k r
unfolding fill_child
fill_child-waits k quantity r = ground arith

event_child-waits :
    (k : ℕ) (event : BrokerEvent) (r : ChildRecord) → waits k (event_child event r).1 ≤ waits k r
unfolding event_child
event_child-waits k (BrokerEvent.acknowledged id broker_id) r = ground arith
event_child-waits k (BrokerEvent.filled id quantity price) r = fill_child-waits k quantity r
event_child-waits k (BrokerEvent.rejected id reason) r = ground arith
event_child-waits k (BrokerEvent.cancelled id) r = ground arith

step-waiting :
    (k : ℕ) (plan : ChildPlan) (c : Call)
    → count k (step plan c).0 + waiting k (step plan c).1.children ≤ waiting k plan.children
unfolding step claim_due mark_sent mark_unknown apply_broker_event request_cancel count
step-waiting k plan (claims now) = claim_loop-waiting k plan.created_mono_ns now plan.children
step-waiting k plan (sends id) = omega (
  arith,
  on_child-waiting k id (λ r. move (is_sending r.state) ChildState.sent r) plan.children
      (λ r. move-waits k (is_sending r.state) ChildState.sent r refl),
)
step-waiting k plan (doubts id) = omega (
  arith,
  on_child-waiting k id (λ r. move (is_sending_or_sent r.state) ChildState.unknown r) plan.children
      (λ r. move-waits k (is_sending_or_sent r.state) ChildState.unknown r refl),
)
step-waiting k plan (cancels id) = omega (
  arith,
  on_child-waiting k id (λ r. move (is_active r.state) ChildState.cancel_pending r) plan.children
      (λ r. move-waits k (is_active r.state) ChildState.cancel_pending r refl),
)
step-waiting k plan (observes event) = omega (
  arith,
  on_child-waiting k (client_id event) (event_child event) plan.children
      (event_child-waits k event),
)

-- In any sequence of calls, the orders with a number that the plan hands out, and the children
-- with it that are still pending after, are together no more than the children with it that were
-- pending before: a child is handed out at most once, whatever is sent, answered or cancelled in
-- between.
pub run-waiting :
    (k : ℕ) (plan : ChildPlan) (calls : List Call)
    → count k (run plan calls).0 + waiting k (run plan calls).1.children ≤ waiting k plan.children
unfolding run count
run-waiting k plan [] = omega arith
run-waiting k plan (c ∷ cs) =
    let next = (step plan c).1 in
    omega (
      arith,
      step-waiting k plan c,
      run-waiting k next cs,
      count-append k (step plan c).0 (run next cs).0,
    )

claim_due_refused :
    (plan : ChildPlan) (now : ℕ) (r s : ChildRecord) (rest : List ChildRecord)
    → plan.children ≡ r ∷ s ∷ rest
    → is_pending r.state ≡ true
    → plan.created_mono_ns + r.order.due_after_ns ≤ now
    → now ≤ u64_max
    → u64_max < plan.created_mono_ns + s.order.due_after_ns
    → claim_due plan now ≡ (
      err invalid_schedule,
      with_children plan (record r { state = ChildState.sending } ∷ s ∷ rest),
    )
unfolding claim_due claim_loop
claim_due_refused plan now r s rest e waits due fits over =
    let first : add_u64 plan.created_mono_ns r.order.due_after_ns
        ≡ some (plan.created_mono_ns + r.order.due_after_ns) =
      ground (arith, due, fits) in
    let second : add_u64 plan.created_mono_ns s.order.due_after_ns ≡ none = ground (arith, over) in
    let ready : (is_pending r.state && leb (plan.created_mono_ns + r.order.due_after_ns) now)
        ≡ true =
      ground (arith, waits, due) in
    rw (e, first, second, ready, claim_loop) refl

-- A due time that overflows loses the claims of the call: where the first child is pending and due,
-- no other child waits with its number, and the due time of the second does not fit in 64 bits, the
-- call returns an error, yet the first child counts as being sent, and no later calls, whatever
-- they are, hand out an order with its number.
pub claim_due_lost :
    (plan : ChildPlan) (now : ℕ) (r s : ChildRecord) (rest : List ChildRecord) (calls : List Call)
    → plan.children ≡ r ∷ s ∷ rest
    → is_pending r.state ≡ true
    → plan.created_mono_ns + r.order.due_after_ns ≤ now
    → now ≤ u64_max
    → u64_max < plan.created_mono_ns + s.order.due_after_ns
    → waiting r.order.child_sequence (s ∷ rest) ≡ 0
    → let (result, after) = claim_due plan now in
      (result ≡ err invalid_schedule)
      × (after.children ≡ record r { state = ChildState.sending } ∷ s ∷ rest)
      × (count r.order.child_sequence (run after calls).0 ≡ 0)
unfolding waiting
claim_due_lost plan now r s rest calls e waits due fits over alone =
    let k = r.order.child_sequence in
    let after = with_children plan (record r { state = ChildState.sending } ∷ s ∷ rest) in
    let lost : claim_due plan now ≡ (err invalid_schedule, after) =
      claim_due_refused plan now r s rest e waits due fits over in
    let never : count k (run after calls).0 ≡ 0 = omega (arith, run-waiting k after calls, alone) in
    (
      ap (λ o. o.0) lost,
      ap (λ o. o.1.children) lost,
      ap (λ o. count k (run o.1 calls).0) lost ∙ never,
    )
