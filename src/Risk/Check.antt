-- ===== src/Risk/Check.antt =====
-- crates/risk-engine/src/lib.rs: `RiskEngine::check`. The early returns of a denial are the errors
-- of a chain.
pub mod Safe
pub mod WrongWay
use insider_trader.Prelude.{
  ℕ, ℤ, pos, ◌+◌, ◌*◌, ◌*ℤ◌, Bool, true, false, not, ◌&&◌, ◌||◌, Option, none, some, [], ◌∷◌, ltb,
  ltb_ℤ, leb_ℤ, eqb_ℤ, if◌then◌else◌, abs_ℕ, signum, pos_part, narrow_i64, add_i64, sub_i64,
  mul_i64, narrow_nonneg_i128, unwrap_or, or_else, map_or, and_then, Result, ok, err, ok_or,
  fail_if, ◌>>=◌, ◌>>◌,
}
use insider_trader.Maps.{Map, nat_key, key_eq}
use insider_trader.Portfolio.{Position, Portfolio, Target, position_of, held, mark_price}
use insider_trader.Risk.{
  State, Limits, Reason, gross_exposure, invalid_limit, missing_price, arithmetic_overflow,
  Decision, allow, resize, deny, RiskEngine,
}

unfoldable pub moves_toward_zero : ℤ → ℤ → Bool
moves_toward_zero current target =
    if ltb_ℤ (pos 0) current
    then leb_ℤ (pos 0) target && leb_ℤ target current
    else if ltb_ℤ current (pos 0)
    then leb_ℤ current target && leb_ℤ target (pos 0)
    else eqb_ℤ target (pos 0)

unfoldable pub position_limited : Limits → ℤ → ℤ
position_limited limits target =
    if ltb (abs_ℕ limits.max_position_ticks) (abs_ℕ target)
    then signum target *ℤ limits.max_position_ticks
    else target

-- An order of the largest size in the direction of the limited target.
unfoldable pub capped_target : Limits → ℤ → ℤ → Result Reason ℤ
capped_target limits current limited = do
  capped ← ok_or (narrow_i64 (pos (abs_ℕ limits.max_order_ticks))) arithmetic_overflow
  step ← ok_or (mul_i64 (signum limited) capped) arithmetic_overflow
  ok_or (add_i64 current step) arithmetic_overflow

-- The target after the position cap and the order cap.
unfoldable pub safe_target : Limits → ℤ → ℤ → Result Reason ℤ
unfolding position_limited capped_target
safe_target limits current target = do
  let limited : ℤ = position_limited limits target
  delta ← ok_or (sub_i64 limited current) arithmetic_overflow
  (if ltb (abs_ℕ limits.max_order_ticks) (abs_ℕ delta)
      then capped_target limits current limited
      else ok limited)

-- The gross notional of the positions, with `safe` held in the target's instrument.
unfoldable pub gross_positions : Portfolio → ℕ → ℤ → ℕ → Map ℕ Position → Option ℕ
gross_positions p id safe total [] = some total
gross_positions p id safe total ((instrument, x) ∷ rest) =
    let quantity = if key_eq instrument id then safe else x.quantity_ticks in
    let mark = unwrap_or (mark_price p instrument) x.mark_price_ticks in
    if leb_ℤ mark (pos 0)
    then none
    else and_then (narrow_nonneg_i128 (abs_ℕ quantity * abs_ℕ mark)) λ notional.
      and_then (narrow_nonneg_i128 (total + notional)) λ t. gross_positions p id safe t rest

unfoldable pub gross_with : Portfolio → ℕ → ℤ → ℤ → Result Reason ℕ
unfolding gross_positions
gross_with p id safe price = do
  gross ← ok_or (gross_positions p id safe 0 p.positions) arithmetic_overflow
  elim (position_of p id) [
    | none ↦ do
      notional ← ok_or (narrow_nonneg_i128 (abs_ℕ safe * abs_ℕ price)) arithmetic_overflow
      ok_or (narrow_nonneg_i128 (gross + notional)) arithmetic_overflow
    | some x ↦ ok gross
  ]

abbrev pub stops_all : State → Bool
stops_all State.halted = true
stops_all State.cancel_only = true
stops_all _ = false

abbrev pub reduces_only : State → Bool
reduces_only State.reduce_only = true
reduces_only _ = false

unfoldable pub checked_target : {F : Type 0} → RiskEngine F → Portfolio → Target → Result Reason ℤ
unfolding moves_toward_zero safe_target gross_with
checked_target engine p target = do
  fail_if (stops_all engine.state) Reason.halted
  fail_if
      (leb_ℤ engine.limits.max_position_ticks (pos 0)
        || leb_ℤ engine.limits.max_order_ticks (pos 0)
        || leb_ℤ engine.limits.max_gross_notional_ticks (pos 0))
      invalid_limit
  price ←
      ok_or
        (or_else (mark_price p target.instrument_id)
          (map_or (position_of p target.instrument_id) none (λ x. some x.mark_price_ticks)))
        missing_price
  fail_if (leb_ℤ price (pos 0)) missing_price
  fail_if
      (reduces_only engine.state
        && not (moves_toward_zero (held p target.instrument_id) target.quantity_ticks))
      Reason.halted
  safe ← safe_target engine.limits (held p target.instrument_id) target.quantity_ticks
  gross ← gross_with p target.instrument_id safe price
  fail_if (ltb_ℤ engine.limits.max_gross_notional_ticks (pos gross)) gross_exposure
  ok safe

unfoldable pub check : {F : Type 0} → RiskEngine F → Portfolio → Target → Decision
unfolding checked_target
check engine p target = elim (checked_target engine p target) [
  | err reason ↦ deny reason
  | ok safe ↦ if eqb_ℤ safe target.quantity_ticks then allow else resize safe
]
