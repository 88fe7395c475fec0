-- ===== src/Risk/Check/WrongWay.antt =====
-- The order cap of `RiskEngine::check` in crates/risk-engine/src/lib.rs takes its direction from
-- the sign of the target, not from the sign of the order.
use insider_trader.Prelude.{
  ℕ, ℤ, pos, ◌<◌, ◌≤ℤ◌, ◌<ℤ◌, ◌-ℤ◌, ◌+ℤ◌, ◌*ℤ◌, ◌≡◌, ◌⊎◌, some, arith, int_laws, neg, parts_apart,
  abs_ℕ, signum, inl, inr, ok,
}
use insider_trader.Portfolio.{Portfolio, Target, held}
use insider_trader.Risk.{Limits, RiskEngine, approved}
use insider_trader.Risk.Check.{position_limited, capped_target, safe_target, check}
use insider_trader.Risk.Check.Safe.{check-approved, checked_target-safe_target}

-- A limited target in the order's own direction.
abbrev pub IsAhead : ℤ → ℤ → Type 0
IsAhead current limited =
    ((pos 0 <ℤ limited) × (current ≤ℤ limited)) ⊎ ((limited <ℤ pos 0) × (limited ≤ℤ current))

abbrev pub IsBetween : ℤ → ℤ → ℤ → Type 0
IsBetween a b x = ((a ≤ℤ x) × (x ≤ℤ b)) ⊎ ((b ≤ℤ x) × (x ≤ℤ a))

step_up : (l : ℤ) (n : ℕ) → pos 0 <ℤ l → signum l *ℤ pos n ≡ pos n
unfolding ◌*ℤ◌
step_up l n h = ground arith

step_down : (l : ℤ) (n : ℕ) → l <ℤ pos 0 → signum l *ℤ pos n ≡ neg (pos n)
unfolding ◌*ℤ◌ neg
step_down l n h = ground arith

step-IsBetween :
    (c l : ℤ) (n : ℕ) → IsAhead c l → n < abs_ℕ (l -ℤ c) → IsBetween c l (c +ℤ signum l *ℤ pos n)
step-IsBetween c l n (inl (up, ahead)) far =
    rw (step_up l n up) (inl (omega int_laws, omega (int_laws, parts_apart (l -ℤ c))))
step-IsBetween c l n (inr (down, ahead)) far =
    rw (step_down l n down) (inr (omega (int_laws, parts_apart (l -ℤ c)), omega int_laws))

-- Where the sign of the limited target is the direction of the order, the safe target lies between
-- the held quantity and the limited target.
pub safe_target-IsBetween :
    (limits : Limits) (current target safe : ℤ)
    → IsAhead current (position_limited limits target)
    → safe_target limits current target ≡ ok safe
    → IsBetween current (position_limited limits target) safe
unfolding safe_target
safe_target-IsBetween limits current target safe h k =
    let limited = position_limited limits target in
    let far = step-IsBetween current limited (abs_ℕ limits.max_order_ticks) h in ground arith

-- A long position that is to be reduced to a smaller long one by more than the order cap grows by
-- the order cap.
pub safe_target_grows :
    (limits : Limits) (current target : ℤ) {safe : ℤ}
    → pos 0 <ℤ target
    → target ≤ℤ limits.max_position_ticks
    → pos 0 <ℤ limits.max_order_ticks
    → target +ℤ limits.max_order_ticks <ℤ current
    → safe_target limits current target ≡ ok safe
    → safe ≡ current +ℤ limits.max_order_ticks
unfolding safe_target position_limited ◌*ℤ◌ ◌+ℤ◌ ◌-ℤ◌
safe_target_grows limits current target a b c d h = ground arith

safe_target_closes :
    (limits : Limits) (current safe : ℤ)
    → pos 0 <ℤ limits.max_order_ticks
    → abs_ℕ limits.max_order_ticks < abs_ℕ current
    → safe_target limits current (pos 0) ≡ ok safe
    → safe ≡ current
unfolding safe_target position_limited capped_target ◌*ℤ◌ ◌+ℤ◌ ◌-ℤ◌
safe_target_closes limits current safe a b h = ground arith

-- A position above the order cap that is to be closed is approved only at the quantity held, so
-- that no order follows.
pub check_close_stays :
    {F : Type 0} (engine : RiskEngine F) (p : Portfolio) (target : Target) (safe : ℤ)
    → target.quantity_ticks ≡ pos 0
    → pos 0 <ℤ engine.limits.max_order_ticks
    → abs_ℕ engine.limits.max_order_ticks < abs_ℕ (held p target.instrument_id)
    → approved (check engine p target) target.quantity_ticks ≡ some safe
    → safe ≡ held p target.instrument_id
check_close_stays engine p target safe flat cap far h =
    safe_target_closes engine.limits (held p target.instrument_id) safe cap far (
      rw flat at
        (checked_target-safe_target engine p target safe (check-approved engine p target safe h)))
