-- ===== src/Tests/Plans.antt =====
-- Runs of the child orders of crates/execution/src/lib.rs on concrete data.
use insider_trader.Prelude.{
  pos, ◌≡◌, ◌≤◌, refl, ok, err, none, List, [], ◌∷◌, arith, codes, map, All,
}
use insider_trader.Maps.{text_key, text_cmp}
use insider_trader.Ids.{display, from_str}
use insider_trader.Ids.RoundTrip.{from_str-display}
use insider_trader.Broker.{Side, OrderType, OrderState, TimeInForce, OrderIntent, BrokerEvent}
use insider_trader.Execution.Schedule.{
  Schedule, ChildOrder, child, plan_children, quantities_of, twap_quantities, twap_values,
  number_children, numbered_child, invalid_schedule,
}
use insider_trader.Execution.Schedule.Conserved.{
  child_total, AreChildrenOf, plan_children-IsConserved,
}
use insider_trader.Execution.Children.{
  ChildPlan, ChildState, planned, misplaced, new, claim_due, with_children,
}
use insider_trader.Execution.Children.Steps.{Call, claims, sends, observes, run}
use insider_trader.Execution.Children.Claims.{count, waiting, claim_due_lost}
use insider_trader.Execution.Children.Started.{new-run_once}
use insider_trader.Execution.Children.Settled.{IsFillable, new-run-AreFillable}

abbrev order : OrderIntent
order = record {
  intent_id = codes "i";
  account_id = 1;
  instrument_id = 1;
  client_order_id = codes "c";
  side = Side.buy;
  quantity_ticks = pos 7;
  order_type = OrderType.market;
  limit_price_ticks = none;
  time_in_force = TimeInForce.day;
  state = OrderState.risk_approved;
  trace_id = 1;
}

abbrev schedule : Schedule
schedule = Schedule.twap 2 100

abbrev children : List ChildOrder
children = child order 1 4 0 ∷ child order 2 3 100 ∷ []

plan_children-IsConserved_example : (child_total children ≡ pos 7) × AreChildrenOf order 1 children
unfolding plan_children quantities_of twap_quantities twap_values number_children numbered_child
plan_children-IsConserved_example = plan_children-IsConserved order schedule children refl

abbrev plan : ChildPlan
plan = record {
  parent_client_order_id = codes "c";
  created_mono_ns = 1_000;
  children = map planned children;
}

new_result : new order schedule 1_000 ≡ ok plan
unfolding text_cmp new misplaced plan_children quantities_of twap_quantities twap_values
    number_children numbered_child
new_result = refl

abbrev calls : List Call
calls =
    claims 1_000
    ∷ claims 1_000
    ∷ sends (codes "c-child-1")
    ∷ observes (BrokerEvent.filled (codes "c-child-1") (pos 4) (pos 25))
    ∷ claims 1_200
    ∷ []

new-run_once_example : count 1 (run plan calls).0 ≤ 1
new-run_once_example = new-run_once 1 order schedule 1_000 plan calls new_result

new-run-AreFillable_example : All IsFillable (run plan calls).1.children
new-run-AreFillable_example = new-run-AreFillable order schedule 1_000 plan calls new_result

abbrev ended : ChildPlan
ended = with_children plan (
    record {
      order = child order 1 4 0;
      state = ChildState.cancelled;
      filled_quantity_ticks = pos 0;
      broker_order_id = none;
    }
    ∷ [])

abbrev late : ChildPlan
late =
    with_children plan
      (planned (child order 1 4 0) ∷ planned (child order 2 3 18_446_744_073_709_551_000) ∷ [])

claim_due_lost_example :
    let (result, after) = claim_due late 2_000 in
    (result ≡ err invalid_schedule)
    × (after.children
        ≡ record (planned (child order 1 4 0)) { state = ChildState.sending }
          ∷ planned (child order 2 3 18_446_744_073_709_551_000)
          ∷ [])
    × (count 1 (run after (claims 2_000 ∷ claims 9_000 ∷ [])).0 ≡ 0)
unfolding waiting
claim_due_lost_example =
    claim_due_lost late 2_000 (planned (child order 1 4 0))
      (planned (child order 2 3 18_446_744_073_709_551_000)) [] (claims 2_000 ∷ claims 9_000 ∷ [])
      refl refl (omega arith) (omega arith) (omega arith) refl

from_str-display_example : from_str (codes "account") (display (codes "account") 255) ≡ ok 255
from_str-display_example = from_str-display (codes "account") 255 (omega arith) (omega arith)
