-- ===== src/Risk/States.antt =====
-- crates/risk-engine/src/lib.rs: the risk state machine, `validate_transition` and `transition`.
pub mod Order
use insider_trader.Prelude.{
  Bool, true, false, not, ◌&&◌, if◌then◌else◌, Text, is_blank, Result, ok, err,
}
use insider_trader.Risk.{State, RiskEngine}

pub data StateTransitionError : Type 0 where
  invalid_transition : State → State → StateTransitionError
  authorization_required : StateTransitionError

abbrev pub same_state : State → State → Bool
same_state State.running State.running = true
same_state State.reduce_only State.reduce_only = true
same_state State.cancel_only State.cancel_only = true
same_state State.halted State.halted = true
same_state _ _ = false

-- The pairs that the source lists as restricting.
abbrev pub restricts : State → State → Bool
restricts State.running State.reduce_only = true
restricts State.running State.cancel_only = true
restricts State.running State.halted = true
restricts State.reduce_only State.cancel_only = true
restricts State.reduce_only State.halted = true
restricts State.cancel_only State.halted = true
restricts _ _ = false

unfoldable pub validate_transition :
    {F : Type 0} → RiskEngine F → State → Text → Result StateTransitionError (Unit {0})
validate_transition engine next authorization =
    if same_state engine.state next
    then ok tt
    else if not (restricts engine.state next) && is_blank authorization
    then err authorization_required
    else ok tt

unfoldable pub transition :
    {F : Type 0}
    → RiskEngine F
    → State
    → Text
    → Result StateTransitionError (Unit {0}) × RiskEngine F
unfolding validate_transition
transition engine next authorization = elim (validate_transition engine next authorization) [
  | err e ↦ (err e, engine)
  | ok u ↦ (ok tt, record engine { state = next })
]
