-- ===== src/Risk/Guards/Gate.antt =====
-- The guardrails of crates/risk-engine/src/lib.rs as conditions, and as a gate before the check of
-- the hard limits.
use insider_trader.Prelude.{
  ℕ, ℤ, pos, ◌≤◌, ◌≤ℤ◌, true, false, not, ◌||◌, ◌≡◌, ◌≢◌, ◌↔◌, refl, Option, none, some, arith, ltb,
  ltb_ℤ, abs_ℕ, is_some_and, Result-cases, inl, inr, ok,
}
use insider_trader.Portfolio.{Portfolio, Target}
use insider_trader.Risk.{Floats, Guardrails, RiskInputs, RiskEngine, approved}
use insider_trader.Risk.Check.{check}
use insider_trader.Risk.Guards.{i64_min, check_inputs, check_limits, check_with_guardrails}

-- A value within a configured limit.
abbrev pub IsUnder : ℤ → Option ℤ → Type 0
IsUnder value none = Unit {0}
IsUnder value (some limit) = (pos 0 ≤ℤ limit) × (value ≤ℤ limit)

abbrev pub IsUnderCount : ℕ → Option ℕ → Type 0
IsUnderCount value none = Unit {0}
IsUnderCount value (some limit) = value ≤ limit

abbrev pub IsNear : ℤ → Option ℤ → Type 0
IsNear value none = Unit {0}
IsNear value (some limit) = (pos 0 ≤ℤ limit) × (abs_ℕ value ≤ abs_ℕ limit)

under_test :
    (value : ℤ) (o : Option ℤ)
    → IsUnder value o
    → is_some_and o (λ limit. ltb_ℤ limit (pos 0) || ltb_ℤ limit value) ≡ false
under_test value none h = refl
under_test value (some limit) h = ground arith

under_count_test :
    (value : ℕ) (o : Option ℕ)
    → IsUnderCount value o
    → is_some_and o (λ limit. ltb limit value) ≡ false
under_count_test value none h = refl
under_count_test value (some limit) h = ground arith

near_test :
    (value : ℤ) (o : Option ℤ)
    → IsNear value o
    → is_some_and o (λ limit. ltb_ℤ limit (pos 0) || ltb (abs_ℕ limit) (abs_ℕ value)) ≡ false
near_test value none h = refl
near_test value (some limit) h = ground arith

module _ (fl : Floats) where
  open fl use {F, zero as zero_F, is_finite, lt}

  abbrev pub IsLevered : F → Option F → Type 0
  IsLevered value none = Unit {0}
  IsLevered value (some limit) =
      (is_finite limit ≡ true) × (lt limit zero_F ≡ false) × (lt limit value ≡ false)

  -- Healthy inputs with sane values.
  pub record IsHealthy (inputs : RiskInputs F) : Type 0 where
    pub fresh : inputs.prices_fresh ≡ true
    pub clock : inputs.clock_healthy ≡ true
    pub session : inputs.broker_session_healthy ≡ true
    pub novel : inputs.duplicate_intent ≡ false
    pub finite : is_finite inputs.leverage ≡ true
    pub leverage : lt inputs.leverage zero_F ≡ false
    pub drawdown : pos 0 ≤ℤ inputs.drawdown_bps
    pub volatility : pos 0 ≤ℤ inputs.predicted_volatility_bps
    pub participation : pos 0 ≤ℤ inputs.participation_bps
    pub deviation : inputs.price_deviation_bps ≢ i64_min

  -- Every configured limit is sane and kept.
  pub record IsLimited (g : Guardrails F) (inputs : RiskInputs F) : Type 0 where
    pub leverage : IsLevered inputs.leverage g.max_leverage
    pub drawdown : IsUnder inputs.drawdown_bps g.max_drawdown_bps
    pub volatility : IsUnder inputs.predicted_volatility_bps g.max_predicted_volatility_bps
    pub participation : IsUnder inputs.participation_bps g.max_participation_bps
    pub orders : IsUnderCount inputs.outstanding_orders g.max_outstanding_orders
    pub messages : IsUnderCount inputs.message_rate g.max_message_rate
    pub deviation : IsNear inputs.price_deviation_bps g.max_price_deviation_bps

  inputs_sound : (i : RiskInputs F) → check_inputs fl i ≡ ok tt → IsHealthy i
  unfolding check_inputs
  inputs_sound i h = ground arith

  inputs_complete : (i : RiskInputs F) → IsHealthy i → check_inputs fl i ≡ ok tt
  unfolding check_inputs
  inputs_complete i h = ground arith

  limits_sound : (g : Guardrails F) (i : RiskInputs F) → check_limits fl g i ≡ ok tt → IsLimited g i
  unfolding check_limits
  limits_sound g i h = record {
    leverage = ground arith;
    drawdown = ground arith;
    volatility = ground arith;
    participation = ground arith;
    orders = ground arith;
    messages = ground arith;
    deviation = ground arith;
  }

  levered_test :
      (value : F) (o : Option F)
      → IsLevered value o
      → is_some_and o (λ limit. not (is_finite limit) || lt limit zero_F || lt limit value) ≡ false
  levered_test value none h = refl
  levered_test value (some limit) h = ground arith

  limits_complete :
      (g : Guardrails F) (i : RiskInputs F) → IsLimited g i → check_limits fl g i ≡ ok tt
  unfolding check_limits
  limits_complete g i h = rw (
    levered_test i.leverage g.max_leverage h.leverage,
    under_test i.drawdown_bps g.max_drawdown_bps h.drawdown,
    under_test i.predicted_volatility_bps g.max_predicted_volatility_bps h.volatility,
    under_test i.participation_bps g.max_participation_bps h.participation,
    under_count_test i.outstanding_orders g.max_outstanding_orders h.orders,
    under_count_test i.message_rate g.max_message_rate h.messages,
    near_test i.price_deviation_bps g.max_price_deviation_bps h.deviation,
  )

  gate_sound :
      (engine : RiskEngine F) (p : Portfolio) (target : Target) (g : Guardrails F)
      (i : RiskInputs F) (s : ℤ)
      → approved (check_with_guardrails fl engine p target g i) target.quantity_ticks ≡ some s
      → IsHealthy i
        × IsLimited g i
        × (approved (check engine p target) target.quantity_ticks ≡ some s)
  unfolding check_with_guardrails
  gate_sound engine p target g i s h = elim (Result-cases (check_inputs fl i)) [
    | inl (r, e) ↦ ground arith
    | inr (tt, e) ↦ elim (Result-cases (check_limits fl g i)) [
      | inl (r, f) ↦ ground arith
      | inr (tt, f) ↦ (inputs_sound i e, limits_sound g i f, ground arith)
    ]
  ]

  -- A check with guardrails approves a quantity exactly when the inputs are healthy, each
  -- configured limit is sane and kept, and the check of the hard limits approves that quantity.
  pub check_with_guardrails_iff :
      (engine : RiskEngine F) (p : Portfolio) (target : Target) (g : Guardrails F)
      (i : RiskInputs F) (s : ℤ)
      → (approved (check_with_guardrails fl engine p target g i) target.quantity_ticks ≡ some s) ↔ (
          IsHealthy i
          × IsLimited g i
          × (approved (check engine p target) target.quantity_ticks ≡ some s))
  unfolding check_with_guardrails
  check_with_guardrails_iff engine p target g i s = (
    gate_sound engine p target g i s,
    λ h. rw (inputs_complete i h.0, limits_complete g i h.1, check_with_guardrails) h.2,
  )
