-- ===== src/Execution/Plan.antt =====
-- crates/execution/src/lib.rs: `plan_target` and `plan_target_with_guardrails`, which make an order
-- intent of what the risk engine approves.
pub mod Approved
use insider_trader.Prelude.{
  ℕ, ℤ, pos, Bool, not, ◌||◌, Option, none, some, ◌++◌, ltb_ℤ, leb_ℤ, eqb_ℤ, if◌then◌else◌, abs_ℕ,
  narrow_i64, sub_i64, codes, Text, Result, ok, err, ok_or, fail_if, ◌>>=◌, ◌>>◌,
}
use insider_trader.Ids.{display}
use insider_trader.Broker.{Side, OrderType, TimeInForce, OrderState, OrderIntent, Capabilities}
use insider_trader.Portfolio.{Portfolio, Target, held}
use insider_trader.Risk.{Floats, RiskInputs, RiskEngine, Decision, allow, resize, deny}
use insider_trader.Risk.Check.{check}
use insider_trader.Risk.Guards.{check_with_guardrails}
use insider_trader.Execution.Schedule.{PlanError, no_delta, risk_denied, unsupported_order}

abbrev pub decision_of :
    (fl : Floats) → RiskEngine fl.F → Portfolio → Target → Option (RiskInputs fl.F) → Decision
decision_of fl engine p target none = check engine p target
decision_of fl engine p target (some inputs) =
    check_with_guardrails fl engine p target engine.guardrails inputs

abbrev pub quantity_of : Decision → ℤ → Result PlanError ℤ
quantity_of allow target = ok target
quantity_of (resize quantity) target = ok quantity
quantity_of (deny reason) target = err (risk_denied reason)

abbrev pub intent_id : ℕ → Target → Text
intent_id account target =
    codes "intent-"
    ++ (display (codes "account") account
        ++ (codes "-" ++ display (codes "proposal") target.proposal_id))

abbrev pub market_order : ℕ → ℕ → Target → ℤ → ℤ → OrderIntent
market_order account trace target delta absolute = record {
  intent_id = intent_id account target;
  account_id = account;
  instrument_id = target.instrument_id;
  client_order_id = codes "client-" ++ intent_id account target;
  side = if ltb_ℤ (pos 0) delta then Side.buy else Side.sell;
  quantity_ticks = absolute;
  order_type = OrderType.market;
  limit_price_ticks = none;
  time_in_force = TimeInForce.day;
  state = OrderState.risk_approved;
  trace_id = trace;
}

-- The order from the held quantity to the approved one.
unfoldable pub order_to : ℕ → ℕ → ℤ → Target → Capabilities → ℤ → Result PlanError OrderIntent
order_to account trace current target capabilities quantity = do
  delta ← ok_or (sub_i64 quantity current) no_delta
  fail_if (eqb_ℤ delta (pos 0)) no_delta
  absolute ← ok_or (narrow_i64 (pos (abs_ℕ delta))) no_delta
  fail_if (not capabilities.market || leb_ℤ absolute (pos 0)) unsupported_order
  ok (market_order account trace target delta absolute)

unfoldable pub plan_target_with_guardrails :
    (fl : Floats)
    → ℕ
    → ℕ
    → Portfolio
    → Target
    → RiskEngine fl.F
    → Capabilities
    → Option (RiskInputs fl.F)
    → Result PlanError OrderIntent
unfolding order_to
plan_target_with_guardrails fl account trace p target engine capabilities inputs = do
  quantity ← quantity_of (decision_of fl engine p target inputs) target.quantity_ticks
  order_to account trace (held p target.instrument_id) target capabilities quantity

unfoldable pub plan_target :
    (fl : Floats)
    → ℕ
    → ℕ
    → Portfolio
    → Target
    → RiskEngine fl.F
    → Capabilities
    → Result PlanError OrderIntent
unfolding plan_target_with_guardrails
plan_target fl account trace p target engine capabilities =
    plan_target_with_guardrails fl account trace p target engine capabilities none
