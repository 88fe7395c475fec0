-- ===== src/Risk/States/Order.antt =====
-- The states of crates/risk-engine/src/lib.rs in the order of what they forbid.
use insider_trader.Prelude.{
  ℕ, ◌≤◌, ◌≡◌, true, List, [], ◌∷◌, arith, Text, is_blank, ok, err, All, leb, not, ◌||◌,
  if◌then◌else◌,
}
use insider_trader.Risk.{State, RiskEngine}
use insider_trader.Risk.States.{transition, authorization_required}

-- How much a state forbids.
abbrev pub severity : State → ℕ
severity State.running = 0
severity State.reduce_only = 1
severity State.cancel_only = 2
severity State.halted = 3

-- A transition takes the engine to the next state, and changes nothing else, if that state forbids
-- at least as much or an authorization that is not blank is given; otherwise it is refused, and the
-- engine is as before.
pub transition_lem :
    {F : Type 0} (engine : RiskEngine F) (next : State) (authorization : Text)
    → transition engine next authorization ≡ (
        if leb (severity engine.state) (severity next) || not (is_blank authorization)
        then (ok tt, record engine { state = next })
        else (err authorization_required, engine))
unfolding transition
transition_lem engine next authorization = ground arith

-- A sequence of transitions, each with its authorization.
unfoldable pub run_transitions : {F : Type 0} → RiskEngine F → List (State × Text) → RiskEngine F
run_transitions engine [] = engine
run_transitions engine ((next, authorization) ∷ rest) =
    run_transitions (transition engine next authorization).1 rest

unattended_step :
    {F : Type 0} (engine : RiskEngine F) (next : State) (authorization : Text)
    → is_blank authorization ≡ true
    → severity engine.state ≤ severity (transition engine next authorization).1.state
unattended_step engine next authorization h =
    ground (arith, transition_lem engine next authorization)

-- No sequence of transitions with blank authorizations leads to a state that forbids less.
pub run_transitions-severity :
    {F : Type 0} (engine : RiskEngine F) (calls : List (State × Text))
    → All (λ c. is_blank c.1 ≡ true) calls
    → severity engine.state ≤ severity (run_transitions engine calls).state
unfolding run_transitions
run_transitions-severity engine [] h = omega arith
run_transitions-severity engine ((next, authorization) ∷ rest) h = omega (
  arith,
  unattended_step engine next authorization h.0,
  run_transitions-severity (transition engine next authorization).1 rest h.1,
)
