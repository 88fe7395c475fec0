-- ===== src/Risk/Check/Safe.antt =====
-- What the decisions of `RiskEngine::check` in crates/risk-engine/src/lib.rs promise.
use insider_trader.Prelude.{
  ℕ, ℤ, pos, negsuc, ◌+◌, ◌*◌, ◌≤◌, ◌<ℤ◌, ◌-ℤ◌, ◌+ℤ◌, ◌*ℤ◌, ◌≡◌, ◌⊎◌, false, Option, none, some, [],
  ◌∷◌, arith, int_laws, ltb_ℤ, if◌then◌else◌, abs_ℕ, signum, pos_part, unwrap_or, map_or, ok,
  Option-cases, Result-cases, inl, inr, or_else,
}
use insider_trader.Maps.{Map, nat_key, key_eq}
use insider_trader.Portfolio.{Position, Portfolio, Target, position_of, held, mark_price}
use insider_trader.Risk.{State, Limits, RiskEngine, approved}
use insider_trader.Risk.Check.{
  position_limited, safe_target, gross_positions, gross_with, checked_target, check,
}

-- A step of a capped order has the size of the cap, or none.
step_bound : (limited : ℤ) (n : ℕ) → abs_ℕ (signum limited *ℤ pos n) ≤ n
unfolding ◌*ℤ◌
step_bound limited n = ground arith

add_then_sub : (a b : ℤ) → a +ℤ b -ℤ a ≡ b
add_then_sub a b = omega int_laws

-- The order that reaches the safe target is within the order cap.
pub safe_target-order :
    (limits : Limits) (current target : ℤ) {safe : ℤ}
    → safe_target limits current target ≡ ok safe
    → abs_ℕ (safe -ℤ current) ≤ abs_ℕ limits.max_order_ticks
unfolding safe_target
safe_target-order limits current target k =
    let limited = position_limited limits target in
    let n = abs_ℕ limits.max_order_ticks in
    ground (arith, step_bound limited n, add_then_sub current (signum limited *ℤ pos n))

-- The gross notional in plain arithmetic, with `safe` held in the target's instrument.
abbrev pub exposure : Portfolio → ℕ → ℤ → Map ℕ Position → ℕ
exposure p id safe [] = 0
exposure p id safe ((instrument, x) ∷ rest) =
    abs_ℕ (if key_eq instrument id then safe else x.quantity_ticks)
      * abs_ℕ (unwrap_or (mark_price p instrument) x.mark_price_ticks)
    + exposure p id safe rest

-- With the target's own notional where no position is held in it.
abbrev pub exposure_with : Portfolio → ℕ → ℤ → ℤ → ℕ
exposure_with p id safe price =
    exposure p id safe p.positions + map_or (position_of p id) (abs_ℕ safe * abs_ℕ price) (λ x. 0)

gross_positions_lem :
    (p : Portfolio) (id : ℕ) (safe : ℤ) (total : ℕ) (m : Map ℕ Position) (gross : ℕ)
    → gross_positions p id safe total m ≡ some gross
    → gross ≡ total + exposure p id safe m
unfolding gross_positions
gross_positions_lem p id safe total [] gross h = ground arith
gross_positions_lem p id safe total ((instrument, x) ∷ rest) gross h =
    let quantity = if key_eq instrument id then safe else x.quantity_ticks in
    let mark = unwrap_or (mark_price p instrument) x.mark_price_ticks in
    ground (arith, gross_positions_lem p id safe (total + abs_ℕ quantity * abs_ℕ mark) rest gross)

gross_with_lem :
    (p : Portfolio) (id : ℕ) (safe price : ℤ) (gross : ℕ)
    → gross_with p id safe price ≡ ok gross
    → gross ≡ exposure_with p id safe price
unfolding gross_with
gross_with_lem p id safe price gross h =
    elim (Option-cases (gross_positions p id safe 0 p.positions)) [
      | inl e ↦ ground arith
      | inr (g, e) ↦ ground (arith, gross_positions_lem p id safe 0 p.positions g e)
    ]

-- The price that the check trusts: the live mark, or the mark of the position.
abbrev pub trusted_price : Portfolio → ℕ → Option ℤ
trusted_price p id =
    or_else (mark_price p id) (map_or (position_of p id) none (λ x. some x.mark_price_ticks))

-- What every approved quantity satisfies.
pub record IsWithin {F : Type 0} (engine : RiskEngine F) (p : Portfolio) (id : ℕ) (safe : ℤ)
    : Type 0 where
  pub price : ℤ
  pub trusted : trusted_price p id ≡ some price
  pub priced : pos 0 <ℤ price
  pub permitted : (engine.state ≡ State.running) ⊎ (engine.state ≡ State.reduce_only)
  pub order : abs_ℕ (safe -ℤ held p id) ≤ pos_part engine.limits.max_order_ticks
  pub gross : exposure_with p id safe price ≤ pos_part engine.limits.max_gross_notional_ticks

gross_bound : (n : ℕ) (m : ℤ) → ltb_ℤ m (pos n) ≡ false → n ≤ pos_part m
gross_bound n (pos m) h = ground arith
gross_bound n (negsuc m) h = ground arith

order_bound : (x m : ℤ) → pos 0 <ℤ m → abs_ℕ x ≤ abs_ℕ m → abs_ℕ x ≤ pos_part m
order_bound x (pos n) h k = omega arith
order_bound x (negsuc n) h k = absurd (omega arith)

checked_target-IsWithin :
    {F : Type 0} (engine : RiskEngine F) (p : Portfolio) (target : Target) (safe : ℤ)
    → checked_target engine p target ≡ ok safe
    → IsWithin engine p target.instrument_id safe
unfolding checked_target
checked_target-IsWithin engine p target safe h =
    let id = target.instrument_id in
    elim (Option-cases (trusted_price p id)) [
      | inl e ↦ ground arith
      | inr (price, e) ↦
          elim (Result-cases (safe_target engine.limits (held p id) target.quantity_ticks)) [
            | inl (r, f) ↦ ground arith
            | inr (s, f) ↦ elim (Result-cases (gross_with p id s price)) [
              | inl (r, g) ↦ ground arith
              | inr (n, g) ↦
                  let under : ltb_ℤ engine.limits.max_gross_notional_ticks (pos n) ≡ false =
                    ground arith in
                  let same : s ≡ safe = ground arith in
                  let cap : pos 0 <ℤ engine.limits.max_order_ticks = ground arith in
                  record {
                    price = price;
                    trusted = e;
                    priced = ground arith;
                    permitted = ground arith;
                    order = rw (← same) (
                        order_bound (s -ℤ held p id) engine.limits.max_order_ticks cap
                          (safe_target-order engine.limits (held p id) target.quantity_ticks f));
                    gross = rw (← same) (
                        rw (← gross_with_lem p id s price n g)
                          (gross_bound n engine.limits.max_gross_notional_ticks under));
                  }
            ]
          ]
    ]

-- What a check approves is what the chain of its tests returns.
pub check-approved :
    {F : Type 0} (engine : RiskEngine F) (p : Portfolio) (target : Target) (safe : ℤ)
    → approved (check engine p target) target.quantity_ticks ≡ some safe
    → checked_target engine p target ≡ ok safe
unfolding check
check-approved engine p target safe h = elim (Result-cases (checked_target engine p target)) [
  | inl (r, e) ↦ ground arith
  | inr (s, e) ↦ let same : s ≡ safe = ground arith in rw (← same) e
]

pub checked_target-safe_target :
    {F : Type 0} (engine : RiskEngine F) (p : Portfolio) (target : Target) (safe : ℤ)
    → checked_target engine p target ≡ ok safe
    → safe_target engine.limits (held p target.instrument_id) target.quantity_ticks ≡ ok safe
unfolding checked_target
checked_target-safe_target engine p target safe h =
    elim (Result-cases
      (safe_target engine.limits (held p target.instrument_id) target.quantity_ticks)) [
        | inl (r, e) ↦ ground arith
        | inr (s, e) ↦ let same : s ≡ safe = ground arith in rw (← same) e
      ]

-- Whatever quantity a check approves, as the target or as a resized one, the instrument has a
-- positive trusted price, the engine is running or reducing, the order from the held quantity is
-- within the order cap, and the gross notional with that quantity is within the gross cap.
pub check-IsWithin :
    {F : Type 0} (engine : RiskEngine F) (p : Portfolio) (target : Target) (safe : ℤ)
    → approved (check engine p target) target.quantity_ticks ≡ some safe
    → IsWithin engine p target.instrument_id safe
check-IsWithin engine p target safe h =
    checked_target-IsWithin engine p target safe (check-approved engine p target safe h)
