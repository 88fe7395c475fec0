-- ===== src/Execution/Children/Steps.antt =====
-- A plan of crates/execution/src/lib.rs at work: its calls in any order.
use insider_trader.Prelude.{ℕ, List, [], ◌∷◌, ◌++◌, Text, Result, ok, err}
use insider_trader.Broker.{BrokerEvent}
use insider_trader.Execution.Schedule.{PlanError, ChildOrder}
use insider_trader.Execution.Children.{
  ChildPlan, claim_due, mark_sent, mark_unknown, apply_broker_event, request_cancel,
}

pub data Call : Type 0 where
  claims : ℕ → Call
  sends doubts cancels : Text → Call
  observes : BrokerEvent → Call

abbrev pub claimed_orders : Result PlanError (List ChildOrder) → List ChildOrder
claimed_orders (ok orders) = orders
claimed_orders (err e) = []

-- The orders that a call hands out to be sent, and the plan after it.
unfoldable pub step : ChildPlan → Call → List ChildOrder × ChildPlan
unfolding claim_due mark_sent mark_unknown apply_broker_event request_cancel
step plan (claims now) = let (claimed, next) = claim_due plan now in (claimed_orders claimed, next)
step plan (sends id) = ([], (mark_sent plan id).1)
step plan (doubts id) = ([], (mark_unknown plan id).1)
step plan (cancels id) = ([], (request_cancel plan id).1)
step plan (observes event) = ([], (apply_broker_event plan event).1)

unfoldable pub run : ChildPlan → List Call → List ChildOrder × ChildPlan
unfolding step
run plan [] = ([], plan)
run plan (c ∷ cs) =
    let (now, next) = step plan c in let (later, last) = run next cs in (now ++ later, last)
