-- ===== src/Risk.antt =====
-- crates/risk-engine/src/lib.rs: the types of the risk engine. A floating-point number is a value
-- of an abstract type, with the tests that the engine makes of it.
pub mod Check
pub mod Guards
pub mod States
pub mod Policy
use insider_trader.Prelude.{ℕ, ℤ, Bool, Option}

-- `f64`.
pub record Floats : Type 1 where
  pub F : Type 0
  pub zero : F
  pub is_finite : F → Bool
  pub lt : F → F → Bool

pub data State : Type 0 where
  running reduce_only cancel_only halted : State

pub record Limits : Type 0 where
  pub max_position_ticks : ℤ
  pub max_order_ticks : ℤ
  pub max_gross_notional_ticks : ℤ

pub record Guardrails (F : Type 0) : Type 0 where
  pub max_leverage : Option F
  pub max_drawdown_bps : Option ℤ
  pub max_predicted_volatility_bps : Option ℤ
  pub max_participation_bps : Option ℤ
  pub max_outstanding_orders : Option ℕ
  pub max_message_rate : Option ℕ
  pub max_price_deviation_bps : Option ℤ

pub record RiskInputs (F : Type 0) : Type 0 where
  pub leverage : F
  pub drawdown_bps : ℤ
  pub predicted_volatility_bps : ℤ
  pub participation_bps : ℤ
  pub outstanding_orders : ℕ
  pub message_rate : ℕ
  pub price_deviation_bps : ℤ
  pub prices_fresh : Bool
  pub clock_healthy : Bool
  pub broker_session_healthy : Bool
  pub duplicate_intent : Bool

pub data Reason : Type 0 where
  halted invalid_limit position_limit order_limit gross_exposure missing_price : Reason
  arithmetic_overflow stale_data unhealthy_clock unhealthy_broker_session duplicate_intent : Reason
  leverage drawdown predicted_volatility participation outstanding_orders message_rate : Reason
  price_deviation : Reason

pub data Decision : Type 0 where
  allow : Decision
  resize : ℤ → Decision
  deny : Reason → Decision

pub record RiskEngine (F : Type 0) : Type 0 where
  pub limits : Limits
  pub guardrails : Guardrails F
  pub state : State

-- The quantity that a decision on a target approves.
abbrev pub approved : Decision → ℤ → Option ℤ
approved allow target = Option.some target
approved (resize quantity) target = Option.some quantity
approved (deny reason) target = Option.none
