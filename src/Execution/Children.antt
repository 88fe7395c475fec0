-- ===== src/Execution/Children.antt =====
-- crates/execution/src/lib.rs: `ChildPlan`, the children of an order and their states. A method
-- returns its result and the children after it; the plan's other fields never change.
pub mod Started
pub mod Claims
pub mod Steps
pub mod Settled
use insider_trader.Prelude.{
  ℕ, ℤ, pos, ◌+ℤ◌, ◌+◌, min, Bool, true, false, not, ◌&&◌, ◌||◌, Option, none, some, List, [], ◌∷◌,
  ◌++◌, map, ltb_ℤ, leb_ℤ, eqb_ℤ, leb, ◌==◌, if◌then◌else◌, is_empty, all, add_i64, add_u64,
  u32_max, Text, codes, decimal, Result, ok, err, fail_if, ◌>>=◌, ◌>>◌,
}
use insider_trader.Maps.{text_key, key_eq}
use insider_trader.Broker.{OrderState, OrderIntent, BrokerEvent}
use insider_trader.Execution.Schedule.{
  PlanError, invalid_schedule, invalid_child_transition, Schedule, ChildOrder, plan_children,
}

pub data ChildState : Type 0 where
  pending sending sent acknowledged partially_filled filled cancel_pending cancelled rejected
        unknown :
      ChildState

pub record ChildRecord : Type 0 where
  pub order : ChildOrder
  pub state : ChildState
  pub filled_quantity_ticks : ℤ
  pub broker_order_id : Option Text

pub record ChildPlan : Type 0 where
  pub parent_client_order_id : Text
  pub created_mono_ns : ℕ
  pub children : List ChildRecord

abbrev pub planned : ChildOrder → ChildRecord
planned order = record {
  order = order;
  state = ChildState.pending;
  filled_quantity_ticks = pos 0;
  broker_order_id = none;
}

-- Whether a child is not the order's, has another number than its place gives, or no quantity.
unfoldable pub misplaced : OrderIntent → ℕ → List ChildOrder → Bool
misplaced intent index [] = false
misplaced intent index (c ∷ cs) =
    not (key_eq c.parent_client_order_id intent.client_order_id)
    || not (c.child_sequence == min (index + 1) u32_max)
    || leb_ℤ c.quantity_ticks (pos 0)
    || misplaced intent (index + 1) cs

unfoldable pub new : OrderIntent → Schedule → ℕ → Result PlanError ChildPlan
unfolding misplaced
new intent schedule created = do
  children ← plan_children intent schedule
  fail_if (is_empty children || misplaced intent 0 children) invalid_schedule
  ok (record {
    parent_client_order_id = intent.client_order_id;
    created_mono_ns = created;
    children = map planned children;
  })

abbrev pub is_pending : ChildState → Bool
is_pending ChildState.pending = true
is_pending _ = false

abbrev pub claim_also :
    ChildOrder → Result PlanError (List ChildOrder) → Result PlanError (List ChildOrder)
claim_also c (ok cs) = ok (c ∷ cs)
claim_also c (err e) = err e

-- An overflow ends the loop; the children claimed before it keep their new state.
unfoldable pub claim_loop :
    ℕ → ℕ → List ChildRecord → Result PlanError (List ChildOrder) × List ChildRecord
claim_loop created now [] = (ok [], [])
claim_loop created now (r ∷ rs) =
    let rest = claim_loop created now rs in
    elim (add_u64 created r.order.due_after_ns) [
      | none ↦ (err invalid_schedule, r ∷ rs)
      | some due ↦
          if is_pending r.state && leb due now
          then (claim_also r.order rest.0, record r { state = ChildState.sending } ∷ rest.1)
          else (rest.0, r ∷ rest.1)
    ]

abbrev pub with_children : ChildPlan → List ChildRecord → ChildPlan
with_children plan children = record plan { children = children }

unfoldable pub claim_due : ChildPlan → ℕ → Result PlanError (List ChildOrder) × ChildPlan
unfolding claim_loop
claim_due plan now =
    let (claimed, children) = claim_loop plan.created_mono_ns now plan.children in
    (claimed, with_children plan children)

abbrev pub child_intent : OrderIntent → ChildOrder → OrderIntent
child_intent parent child = record parent {
  intent_id = parent.intent_id ++ (codes "-child-" ++ decimal child.child_sequence);
  client_order_id = child.client_order_id;
  side = child.side;
  quantity_ticks = child.quantity_ticks;
  order_type = child.order_type;
  limit_price_ticks = child.limit_price_ticks;
  state = OrderState.risk_approved;
}

abbrev pub Outcome : Type 0 → Type 0
Outcome A = Result PlanError (Unit {0}) × A

-- A method on the first child with the identifier, written back in its place.
unfoldable pub on_child :
    Text → (ChildRecord → Outcome ChildRecord) → List ChildRecord → Outcome (List ChildRecord)
on_child id f [] = (err invalid_child_transition, [])
on_child id f (r ∷ rs) =
    let here = f r in
    let later = on_child id f rs in
    if key_eq r.order.client_order_id id then (here.0, here.1 ∷ rs) else (later.0, r ∷ later.1)

abbrev pub on_plan : ChildPlan → Text → (ChildRecord → Outcome ChildRecord) → Outcome ChildPlan
on_plan plan id f =
    let (result, children) = on_child id f plan.children in (result, with_children plan children)

abbrev pub refused : ChildRecord → Outcome ChildRecord
refused r = (err invalid_child_transition, r)

-- The new state where the test holds.
abbrev pub move : Bool → ChildState → ChildRecord → Outcome ChildRecord
move legal next r = if legal then (ok tt, record r { state = next }) else refused r

abbrev pub is_sending : ChildState → Bool
is_sending ChildState.sending = true
is_sending _ = false

abbrev pub is_sending_or_sent : ChildState → Bool
is_sending_or_sent ChildState.sending = true
is_sending_or_sent ChildState.sent = true
is_sending_or_sent _ = false

unfoldable pub mark_sent : ChildPlan → Text → Outcome ChildPlan
unfolding on_child
mark_sent plan id = on_plan plan id (λ r. move (is_sending r.state) ChildState.sent r)

unfoldable pub mark_unknown : ChildPlan → Text → Outcome ChildPlan
unfolding on_child
mark_unknown plan id = on_plan plan id (λ r. move (is_sending_or_sent r.state) ChildState.unknown r)

abbrev pub client_id : BrokerEvent → Text
client_id (BrokerEvent.acknowledged id broker_id) = id
client_id (BrokerEvent.filled id quantity price) = id
client_id (BrokerEvent.rejected id reason) = id
client_id (BrokerEvent.cancelled id) = id

-- The states that wait for the broker's first answer.
abbrev pub is_awaiting : ChildState → Bool
is_awaiting ChildState.sending = true
is_awaiting ChildState.sent = true
is_awaiting ChildState.acknowledged = true
is_awaiting ChildState.unknown = true
is_awaiting _ = false

abbrev pub is_filled : ChildState → Bool
is_filled ChildState.filled = true
is_filled _ = false

abbrev pub is_partially_filled : ChildState → Bool
is_partially_filled ChildState.partially_filled = true
is_partially_filled _ = false

abbrev pub is_cancel_pending : ChildState → Bool
is_cancel_pending ChildState.cancel_pending = true
is_cancel_pending _ = false

unfoldable pub fill_child : ℤ → ChildRecord → Outcome ChildRecord
fill_child quantity r =
    if not (
      ltb_ℤ (pos 0) quantity
      && (is_awaiting r.state || is_partially_filled r.state || is_filled r.state))
    then refused r
    else if is_filled r.state
    then (ok tt, r)
    else elim (add_i64 r.filled_quantity_ticks quantity) [
      | none ↦ refused r
      | some total ↦ if ltb_ℤ r.order.quantity_ticks total then refused r else (
        ok tt,
        record r {
          filled_quantity_ticks = total;
          state =
              if eqb_ℤ total r.order.quantity_ticks
              then ChildState.filled
              else ChildState.partially_filled;
        },
      )
    ]

unfoldable pub event_child : BrokerEvent → ChildRecord → Outcome ChildRecord
unfolding fill_child
event_child (BrokerEvent.acknowledged id broker_id) r =
    if is_awaiting r.state
    then (ok tt, record r { state = ChildState.acknowledged; broker_order_id = some broker_id })
    else refused r
event_child (BrokerEvent.filled id quantity price) r = fill_child quantity r
event_child (BrokerEvent.cancelled id) r =
    move (is_awaiting r.state || is_cancel_pending r.state) ChildState.cancelled r
event_child (BrokerEvent.rejected id reason) r = move (is_awaiting r.state) ChildState.rejected r

unfoldable pub apply_broker_event : ChildPlan → BrokerEvent → Outcome ChildPlan
unfolding event_child on_child
apply_broker_event plan event = on_plan plan (client_id event) (event_child event)

abbrev pub is_active : ChildState → Bool
is_active ChildState.sent = true
is_active ChildState.acknowledged = true
is_active ChildState.partially_filled = true
is_active _ = false

unfoldable pub request_cancel : ChildPlan → Text → Outcome ChildPlan
unfolding on_child
request_cancel plan id = on_plan plan id (λ r. move (is_active r.state) ChildState.cancel_pending r)

abbrev pub is_settled : ChildState → Bool
is_settled ChildState.filled = true
is_settled ChildState.cancelled = true
is_settled ChildState.rejected = true
is_settled _ = false

unfoldable pub is_complete : ChildPlan → Bool
is_complete plan = all (λ r. is_settled r.state) plan.children
