-- ===== src/Risk/Guards.antt =====
-- crates/risk-engine/src/lib.rs: `RiskEngine::check_with_guardrails`, over the tests that the engine
-- makes of a floating-point number.
pub mod Gate
use insider_trader.Prelude.{
  ℕ, ℤ, pos, negsuc, Bool, not, ◌||◌, Option, ltb, ltb_ℤ, eqb_ℤ, abs_ℕ, is_some_and, Result, ok,
  err, fail_if, ◌>>=◌, ◌>>◌,
}
use insider_trader.Portfolio.{Portfolio, Target}
use insider_trader.Risk.{
  Floats, Guardrails, RiskInputs, Reason, stale_data, unhealthy_clock, unhealthy_broker_session,
  Decision, deny, RiskEngine,
}
use insider_trader.Risk.Check.{check}

-- `i64::MIN`.
abbrev pub i64_min : ℤ
i64_min = negsuc 9_223_372_036_854_775_807

module _ (fl : Floats) where
  open fl use {F, zero as zero_F, is_finite, lt}

  -- The observations that must hold whatever the limits.
  unfoldable pub check_inputs : RiskInputs F → Result Reason (Unit {0})
  check_inputs inputs = do
    fail_if (not inputs.prices_fresh) stale_data
    fail_if (not inputs.clock_healthy) unhealthy_clock
    fail_if (not inputs.broker_session_healthy) unhealthy_broker_session
    fail_if inputs.duplicate_intent Reason.duplicate_intent
    fail_if
        (not (is_finite inputs.leverage)
          || lt inputs.leverage zero_F
          || ltb_ℤ inputs.drawdown_bps (pos 0)
          || ltb_ℤ inputs.predicted_volatility_bps (pos 0)
          || ltb_ℤ inputs.participation_bps (pos 0)
          || eqb_ℤ inputs.price_deviation_bps i64_min)
        stale_data

  -- The configured limits; one that is absent is not checked.
  unfoldable pub check_limits : Guardrails F → RiskInputs F → Result Reason (Unit {0})
  check_limits guardrails inputs = do
    fail_if
        (is_some_and guardrails.max_leverage
          (λ limit. not (is_finite limit) || lt limit zero_F || lt limit inputs.leverage))
        Reason.leverage
    fail_if
        (is_some_and guardrails.max_drawdown_bps
          (λ limit. ltb_ℤ limit (pos 0) || ltb_ℤ limit inputs.drawdown_bps))
        Reason.drawdown
    fail_if
        (is_some_and guardrails.max_predicted_volatility_bps
          (λ limit. ltb_ℤ limit (pos 0) || ltb_ℤ limit inputs.predicted_volatility_bps))
        Reason.predicted_volatility
    fail_if
        (is_some_and guardrails.max_participation_bps
          (λ limit. ltb_ℤ limit (pos 0) || ltb_ℤ limit inputs.participation_bps))
        Reason.participation
    fail_if
        (is_some_and guardrails.max_outstanding_orders
          (λ limit. ltb limit inputs.outstanding_orders))
        Reason.outstanding_orders
    fail_if (is_some_and guardrails.max_message_rate (λ limit. ltb limit inputs.message_rate))
        Reason.message_rate
    fail_if
        (is_some_and guardrails.max_price_deviation_bps
          (λ limit. ltb_ℤ limit (pos 0) || ltb (abs_ℕ limit) (abs_ℕ inputs.price_deviation_bps)))
        Reason.price_deviation

  unfoldable pub check_with_guardrails :
      RiskEngine F → Portfolio → Target → Guardrails F → RiskInputs F → Decision
  unfolding check_inputs check_limits
  check_with_guardrails engine p target guardrails inputs =
      elim (check_inputs inputs >> check_limits guardrails inputs) [
        | err reason ↦ deny reason
        | ok u ↦ check engine p target
      ]
