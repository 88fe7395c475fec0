-- ===== src/Broker.antt =====
-- crates/broker-api/src/lib.rs: the broker-neutral order contract, and the gateway that adapters
-- implement. An account, instrument or trace id is its number.
pub mod Preflight
use insider_trader.Prelude.{ℕ, ℤ, Bool, Option, List, Text, Result}
use insider_trader.Maps.{Map}

pub data Side : Type 0 where
  buy sell : Side

pub data OrderType : Type 0 where
  market limit : OrderType

pub data TimeInForce : Type 0 where
  day good_til_cancel immediate_or_cancel : TimeInForce

pub data OrderState : Type 0 where
  created risk_approved queued sending sent acknowledged partially_filled : OrderState
  filled cancel_pending replace_pending cancelled rejected expired unknown : OrderState

pub record OrderIntent : Type 0 where
  pub intent_id : Text
  pub account_id : ℕ
  pub instrument_id : ℕ
  pub client_order_id : Text
  pub side : Side
  pub quantity_ticks : ℤ
  pub order_type : OrderType
  pub limit_price_ticks : Option ℤ
  pub time_in_force : TimeInForce
  pub state : OrderState
  pub trace_id : ℕ

-- The fields of each event in the source's order; `client_order_id` is the first of each.
pub data BrokerEvent : Type 0 where
  acknowledged : Text → Text → BrokerEvent
  filled : Text → ℤ → ℤ → BrokerEvent
  rejected : Text → Text → BrokerEvent
  cancelled : Text → BrokerEvent

pub record BrokerOrderSnapshot : Type 0 where
  pub client_order_id : Text
  pub event : BrokerEvent
  pub filled_quantity_ticks : Option ℤ

pub record BrokerPositionSnapshot : Type 0 where
  pub instrument_id : ℕ
  pub quantity_ticks : ℤ

pub record BrokerSnapshot : Type 0 where
  pub orders : List BrokerOrderSnapshot
  pub positions : List BrokerPositionSnapshot
  pub account_values : Map Text ℤ

pub record Capabilities : Type 0 where
  pub market : Bool
  pub limit : Bool
  pub fractional_quantity : Bool
  pub cancel_replace : Bool

-- The trait `BrokerGateway`: the answers of an adapter to the calls of one operation. Which of the
-- calls that change an order an operation makes, and when, is a part of its result, in
-- Execution/Submit.
pub record BrokerGateway : Type 0 where
  pub capabilities : Capabilities
  pub send : OrderIntent → Result Text (Unit {0})
  pub reconcile : Text → Result Text (Option BrokerEvent)
  pub snapshot : Result Text BrokerSnapshot
  pub cancel : Text → Result Text (Unit {0})
  pub replace : Text → ℤ → Option ℤ → Result Text (Unit {0})
