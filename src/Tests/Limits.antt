-- ===== src/Tests/Limits.antt =====
-- Runs of crates/risk-engine/src/lib.rs and crates/broker-api/src/lib.rs on concrete data.
use insider_trader.Prelude.{
  ◌<ℤ◌, is_whitespace, ℕ, ℤ, pos, ◌≡◌, ◌≤◌, ◌↔◌, refl, ok, true, false, none, some, List, [], ◌∷◌,
  arith, codes, in_i64, ◌+ℤ◌, ◌-ℤ◌, ◌*ℤ◌,
}
use insider_trader.Maps.{nat_key, text_key, get}
use insider_trader.Market.{asset_key}
use insider_trader.Market
use insider_trader.Broker.{Side, OrderType, OrderState, TimeInForce, OrderIntent, Capabilities}
use insider_trader.Broker.Preflight.{CapabilityMatrix, TradingSpec, preflight}
use insider_trader.Broker.Preflight.Certified.{IsCertified, preflight-IsCertified}
use insider_trader.Portfolio.{Portfolio, Target}
use insider_trader.Risk.{Floats, State, Limits, Guardrails, RiskInputs, RiskEngine, approved}
use insider_trader.Risk.Check.{
  check, checked_target, safe_target, position_limited, capped_target, gross_with, gross_positions,
}
use insider_trader.Risk.Check.Safe.{IsWithin, check-IsWithin}
use insider_trader.Risk.Guards.{check_with_guardrails, check_inputs, check_limits}
use insider_trader.Execution.Plan.{decision_of, market_order, order_to, plan_target_with_guardrails}
use insider_trader.Execution.Plan.Approved.{plan_target-IsWithin}
use insider_trader.Risk.Guards.Gate.{IsHealthy, IsLimited, check_with_guardrails_iff}
use insider_trader.Risk.States.Order.{severity, run_transitions, run_transitions-severity}
use insider_trader.Risk.Policy.{TimedLimits, RiskScope, initial, new, validate_limits, limits_at}
use insider_trader.Risk.Policy.Positive.{IsPositive}
use insider_trader.Risk.Policy.Install.{
  Install, system, account, install_all, IsSound, install_all-limits_at,
}

abbrev caps : Limits
caps = record {
  max_position_ticks = pos 100;
  max_order_ticks = pos 30;
  max_gross_notional_ticks = pos 5_000;
}

abbrev no_guardrails : Guardrails (Unit {0})
no_guardrails = record {
  max_leverage = none;
  max_drawdown_bps = some (pos 500);
  max_predicted_volatility_bps = none;
  max_participation_bps = none;
  max_outstanding_orders = some 5;
  max_message_rate = none;
  max_price_deviation_bps = none;
}

abbrev engine : RiskEngine (Unit {0})
engine = record { limits = caps; guardrails = no_guardrails; state = State.running }

abbrev holding : ℕ → Portfolio
holding quantity = record {
  positions = (1, record { quantity_ticks = pos quantity; mark_price_ticks = pos 10 }) ∷ [];
  marks = (1, pos 10) ∷ [];
  cost_basis = (1, pos 9) ∷ [];
  cash_ticks = pos 1_000;
  realized_pnl_ticks = pos 0;
  fees_ticks = pos 0;
  ledger = [];
  corporate_actions = [];
  peak_equity_ticks = none;
}

abbrev target : ℤ → Target
target quantity = record { instrument_id = 1; quantity_ticks = quantity; proposal_id = 7 }

check-IsWithin_example : IsWithin engine (holding 20) 1 (pos 50)
unfolding check checked_target safe_target position_limited capped_target gross_with gross_positions
    get ◌+ℤ◌ ◌-ℤ◌ ◌*ℤ◌ in_i64
check-IsWithin_example = check-IsWithin engine (holding 20) (target (pos 90)) (pos 50) refl

abbrev no_floats : Floats
no_floats = record { F = Unit {0}; zero = tt; is_finite = λ x. true; lt = λ x y. false }

abbrev observed : RiskInputs (Unit {0})
observed = record {
  leverage = tt;
  drawdown_bps = pos 100;
  predicted_volatility_bps = pos 40;
  participation_bps = pos 10;
  outstanding_orders = 2;
  message_rate = 1;
  price_deviation_bps = pos 5;
  prices_fresh = true;
  clock_healthy = true;
  broker_session_healthy = true;
  duplicate_intent = false;
}

check_with_guardrails_iff_example :
    (approved
        (check_with_guardrails no_floats engine
          (holding 20)
          (target (pos 90))
          no_guardrails
          observed)
        (pos 90)
      ≡ some (pos 50))
    ↔ (IsHealthy no_floats observed
        × IsLimited no_floats no_guardrails observed
        × (approved (check engine (holding 20) (target (pos 90))) (pos 90) ≡ some (pos 50)))
check_with_guardrails_iff_example =
    check_with_guardrails_iff no_floats engine (holding 20) (target (pos 90)) no_guardrails observed
      (pos 50)

abbrev markets : Capabilities
markets = record { market = true; limit = true; fractional_quantity = false; cancel_replace = true }

abbrev buyer : ℕ
buyer = 3

plan_target-IsWithin_example :
    ((target (pos 90)).instrument_id ≡ (target (pos 90)).instrument_id)
    × (buyer ≡ buyer)
    × (OrderType.market ≡ OrderType.market)
    × (OrderState.risk_approved ≡ OrderState.risk_approved)
    × (pos 0 <ℤ pos 30)
    × (approved
          (decision_of no_floats engine (holding 20) (target (pos 90)) (some observed))
          (pos 90)
        ≡ some (pos 20 +ℤ pos 30))
    × IsWithin engine (holding 20) 1 (pos 20 +ℤ pos 30)
unfolding plan_target_with_guardrails order_to check_with_guardrails check_inputs check_limits check
    checked_target safe_target position_limited capped_target gross_with gross_positions get ◌+ℤ◌
    ◌-ℤ◌ ◌*ℤ◌ in_i64
plan_target-IsWithin_example =
    plan_target-IsWithin no_floats buyer 9 (holding 20) (target (pos 90)) engine markets
      (some observed) (market_order buyer 9 (target (pos 90)) (pos 30) (pos 30)) refl

run_transitions-severity_example :
    0
    ≤ severity
        (run_transitions engine ((State.halted, codes "") ∷ (State.running, codes " ") ∷ [])).state
unfolding is_whitespace
run_transitions-severity_example =
    run_transitions-severity engine ((State.halted, codes "") ∷ (State.running, codes " ") ∷ [])
      (refl, (refl, tt))

abbrev tight : Limits
tight = record {
  max_position_ticks = pos 10;
  max_order_ticks = pos 5;
  max_gross_notional_ticks = pos 500;
}

abbrev revisions : List TimedLimits
revisions =
    record { effective_mono_ns = 0; limits = caps }
    ∷ record { effective_mono_ns = 50; limits = tight }
    ∷ []

abbrev between : TimedLimits
between = record { effective_mono_ns = 20; limits = tight }

abbrev scope : RiskScope
scope = record {
  account_id = codes "acc";
  strategy_id = none;
  asset_class = none;
  instrument_id = 1;
}

abbrev calls : List Install
calls =
    account (codes "acc") between ∷ system (record { effective_mono_ns = 60; limits = tight }) ∷ []

install_all-limits_at_example : IsPositive (limits_at (install_all (initial caps) calls) scope 25)
unfolding new validate_limits
install_all-limits_at_example = install_all-limits_at caps (initial caps) calls scope 25 refl

initial-IsSound : IsSound (initial caps)
initial-IsSound = record {
  started = refl;
  system = ((omega arith, omega arith, omega arith), tt);
  accounts = tt;
  strategies = tt;
  assets = tt;
  instruments = tt;
}

abbrev matrix : CapabilityMatrix
matrix = record {
  version = codes "v1";
  supported =
      (
        record {
          asset_class = Market.AssetClass.equity;
          order_type = OrderType.limit;
          time_in_force = TimeInForce.day;
        },
        tt,
      )
      ∷ [];
}

abbrev limit_order : OrderIntent
limit_order = record {
  intent_id = codes "i";
  account_id = 1;
  instrument_id = 1;
  client_order_id = codes "c";
  side = Side.buy;
  quantity_ticks = pos 40;
  order_type = OrderType.limit;
  limit_price_ticks = some (pos 25);
  time_in_force = TimeInForce.day;
  state = OrderState.risk_approved;
  trace_id = 1;
}

abbrev spec : TradingSpec
spec = record {
  asset_class = Market.AssetClass.equity;
  quantity_increment_ticks = pos 10;
  price_increment_ticks = pos 5;
}

preflight-IsCertified_example :
    (preflight matrix limit_order spec ≡ ok tt) ↔ IsCertified matrix limit_order spec
preflight-IsCertified_example = preflight-IsCertified matrix limit_order spec
