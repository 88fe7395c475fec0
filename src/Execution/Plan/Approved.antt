-- ===== src/Execution/Plan/Approved.antt =====
-- The order intents that crates/execution/src/lib.rs plans, and the limits of
-- crates/risk-engine/src/lib.rs.
use insider_trader.Prelude.{
  Bool-cases, parts_apart, ◌≤ℤ◌, ℕ, ℤ, pos, ◌+ℤ◌, ◌-ℤ◌, ◌<ℤ◌, ◌≡◌, false, Option, none, some, arith,
  int_laws, ltb_ℤ, if◌then◌else◌, abs_ℕ, ok, >>=-eq-ok, inl, inr,
}
use insider_trader.Broker.{Side, OrderType, OrderState, OrderIntent, Capabilities}
use insider_trader.Portfolio.{Portfolio, Target, held}
use insider_trader.Risk.{Floats, RiskInputs, RiskEngine, Decision, approved}
use insider_trader.Risk.Check.Safe.{IsWithin, check-IsWithin}
use insider_trader.Risk.Guards.Gate.{check_with_guardrails_iff}
use insider_trader.Execution.Plan.{decision_of, quantity_of, order_to, plan_target_with_guardrails}

-- The quantity held once an order is filled whole.
abbrev pub after : ℤ → Side → ℤ → ℤ
after current Side.buy quantity = current +ℤ quantity
after current Side.sell quantity = current -ℤ quantity

-- A market order of an account that is approved, with a positive quantity that leads to the one
-- approved.
record LeadsTo (account : ℕ) (current quantity : ℤ) (target : Target) (intent : OrderIntent)
    : Type 0 where
  pub reaches : after current intent.side intent.quantity_ticks ≡ quantity
  pub positive : pos 0 <ℤ intent.quantity_ticks
  pub state : intent.state ≡ OrderState.risk_approved
  pub instrument : intent.instrument_id ≡ target.instrument_id
  pub owner : intent.account_id ≡ account
  pub kind : intent.order_type ≡ OrderType.market

up_by : (c q : ℤ) → pos 0 <ℤ (q -ℤ c) → c +ℤ pos (abs_ℕ (q -ℤ c)) ≡ q
up_by c q h = omega (int_laws, h, parts_apart (q -ℤ c))

down_by : (c q : ℤ) → ltb_ℤ (pos 0) (q -ℤ c) ≡ false → c -ℤ pos (abs_ℕ (q -ℤ c)) ≡ q
down_by c q h =
    let bound : (q -ℤ c) ≤ℤ pos 0 = ground (arith, h) in
    omega (int_laws, bound, parts_apart (q -ℤ c))

after_delta :
    (c q : ℤ)
    → after c (if ltb_ℤ (pos 0) (q -ℤ c) then Side.buy else Side.sell) (pos (abs_ℕ (q -ℤ c))) ≡ q
after_delta c q = elim (Bool-cases (ltb_ℤ (pos 0) (q -ℤ c))) [
  | inl e ↦ rw e (up_by c q (ground (arith, e)))
  | inr e ↦ rw e (down_by c q e)
]

order_to-LeadsTo :
    (account trace : ℕ) (current : ℤ) (target : Target) (capabilities : Capabilities) (quantity : ℤ)
    (intent : OrderIntent)
    → order_to account trace current target capabilities quantity ≡ ok intent
    → LeadsTo account current quantity target intent
unfolding order_to
order_to-LeadsTo account trace current target capabilities quantity intent h = record {
  reaches = ground (arith, h, after_delta current quantity);
  positive = ground (arith, h);
  state = ground (arith, h);
  instrument = ground (arith, h);
  owner = ground (arith, h);
  kind = ground (arith, h);
}

quantity_of-approved :
    (d : Decision) (target quantity : ℤ)
    → quantity_of d target ≡ ok quantity
    → approved d target ≡ some quantity
quantity_of-approved d target quantity h = ground (arith, h)

decision_of-IsWithin :
    (fl : Floats) (engine : RiskEngine fl.F) (p : Portfolio) (target : Target)
    (inputs : Option (RiskInputs fl.F)) (safe : ℤ)
    → approved (decision_of fl engine p target inputs) target.quantity_ticks ≡ some safe
    → IsWithin engine p target.instrument_id safe
decision_of-IsWithin fl engine p target none safe h = check-IsWithin engine p target safe h
decision_of-IsWithin fl engine p target (some inputs) safe h =
    check-IsWithin engine p target safe
      ((check_with_guardrails_iff fl engine p target engine.guardrails inputs safe).0 h).2

-- An order intent is planned only for an approved target: it is a market order for the instrument of
-- the target and the account, it is marked as approved, its quantity is positive, and the quantity
-- of its instrument that is held once it is filled whole is the one that the risk engine approved,
-- which is within the limits of the engine.
pub plan_target-IsWithin :
    (fl : Floats) (account trace : ℕ) (p : Portfolio) (target : Target) (engine : RiskEngine fl.F)
    (capabilities : Capabilities) (inputs : Option (RiskInputs fl.F)) (intent : OrderIntent)
    → plan_target_with_guardrails fl account trace p target engine capabilities inputs ≡ ok intent
    → let reached = after (held p intent.instrument_id) intent.side intent.quantity_ticks in
      (intent.instrument_id ≡ target.instrument_id)
      × (intent.account_id ≡ account)
      × (intent.order_type ≡ OrderType.market)
      × (intent.state ≡ OrderState.risk_approved)
      × (pos 0 <ℤ intent.quantity_ticks)
      × (approved (decision_of fl engine p target inputs) target.quantity_ticks ≡ some reached)
      × IsWithin engine p intent.instrument_id reached
unfolding plan_target_with_guardrails
plan_target-IsWithin fl account trace p target engine capabilities inputs intent h =
    let decision = decision_of fl engine p target inputs in
    let current = held p target.instrument_id in
    let (quantity, q, k) =
      >>=-eq-ok (quantity_of decision target.quantity_ticks)
        (order_to account trace current target capabilities) h in
    let leads = order_to-LeadsTo account trace current target capabilities quantity intent k in
    let chosen = quantity_of-approved decision target.quantity_ticks quantity q in
    (
      leads.instrument,
      leads.owner,
      leads.kind,
      leads.state,
      leads.positive,
      rw (leads.instrument, leads.reaches) chosen,
      rw (leads.instrument, leads.reaches)
          (decision_of-IsWithin fl engine p target inputs quantity chosen),
    )
