-- ===== src/Execution/Schedule.antt =====
-- crates/execution/src/lib.rs: `Schedule` and `plan_children`. A quantity that the source has found
-- positive, and its shares, are natural numbers; `usize` has 64 bits.
pub mod Shares
pub mod Conserved
use insider_trader.Prelude.{
  ℕ, zero, suc, ℤ, pos, pos_part, ◌+◌, ◌-◌, ◌*◌, ◌/◌, ◌%◌, min, max, Bool, true, false, not, ◌&&◌,
  ◌||◌, Option, none, some, List, [], ◌∷◌, ◌++◌, ltb, leb, ◌==◌, ltb_ℤ, leb_ℤ, if◌then◌else◌,
  length, is_empty, any, and_then, narrow_nonneg_i64, add_u64, add_u128, mul_u64, u32_max, Text,
  codes, decimal, Result, ok, err, ok_or, fail_if, ◌>>=◌, ◌>>◌,
}
use insider_trader.Broker.{Side, OrderType, OrderIntent}
use insider_trader.Risk.{Reason}

pub data PlanError : Type 0 where
  no_delta : PlanError
  risk_denied : Reason → PlanError
  unsupported_order invalid_schedule invalid_child_transition : PlanError

-- The fields in the source's order.
pub data Schedule : Type 0 where
  immediate : Schedule
  twap : (slices interval_ns : ℕ) → Schedule
  vwap : (weights : List ℕ) → Schedule
  pov : (participation_bps interval_ns : ℕ) (market_volume_ticks : List ℤ) → Schedule
  implementation_shortfall : (slices interval_ns urgency_bps : ℕ) → Schedule
  adaptive :
      (slices interval_ns urgency_bps : ℕ) (spread_ticks max_spread_ticks : ℤ)
      (volatility_bps max_volatility_bps : ℕ) (market_volume_ticks : List ℤ)
      → Schedule

pub record ChildOrder : Type 0 where
  pub parent_client_order_id : Text
  pub child_sequence : ℕ
  pub client_order_id : Text
  pub quantity_ticks : ℤ
  pub due_after_ns : ℕ
  pub side : Side
  pub order_type : OrderType
  pub limit_price_ticks : Option ℤ

abbrev pub sum : List ℕ → ℕ
sum [] = 0
sum (x ∷ xs) = x + sum xs

-- `quantities.iter().any(|quantity| *quantity <= 0)`.
abbrev pub any_zero : List ℕ → Bool
any_zero = any (λ x. x == 0)

-- The equal slices from an index on.
unfoldable pub twap_values : ℕ → ℕ → ℕ → ℕ → List ℕ
twap_values zero index base remainder = []
twap_values (suc n) index base remainder =
    (base + (if ltb index remainder then 1 else 0)) ∷ twap_values n (index + 1) base remainder

unfoldable pub twap_quantities : ℕ → ℕ → ℕ → Result PlanError (List ℕ × ℕ)
unfolding twap_values
twap_quantities quantity slices interval = do
  fail_if (slices == 0 || interval == 0 || ltb quantity slices) invalid_schedule
  ok (twap_values slices 0 (quantity / slices) (quantity % slices), interval)

-- `quantity * weight / total_weight` for each weight.
unfoldable pub shares : ℕ → ℕ → List ℕ → Result PlanError (List ℕ)
shares quantity total [] = ok []
shares quantity total (w ∷ ws) = do
  share ← ok_or (narrow_nonneg_i64 (quantity * w / total)) invalid_schedule
  rest ← shares quantity total ws
  ok (share ∷ rest)

-- One more for each share from the first on, while a remainder is left; and what is left of it.
unfoldable pub spread_remainder : ℕ → List ℕ → List ℕ × ℕ
spread_remainder remainder [] = ([], remainder)
spread_remainder zero (x ∷ xs) = (x ∷ xs, 0)
spread_remainder (suc r) (x ∷ xs) = let (ys, left) = spread_remainder r xs in (suc x ∷ ys, left)

-- The floors with what they leave of the quantity spread; all of it, and no share zero.
unfoldable pub fill_up : ℕ → List ℕ → Result PlanError (List ℕ)
unfolding spread_remainder
fill_up quantity floors = do
  let spread : List ℕ × ℕ = spread_remainder (quantity - sum floors) floors
  fail_if (not (spread.1 == 0) || any_zero spread.0) invalid_schedule
  ok spread.0

unfoldable pub weighted : ℕ → ℕ → List ℕ → Result PlanError (List ℕ)
unfolding shares fill_up
weighted quantity total weights = do floors ← shares quantity total weights; fill_up quantity floors

unfoldable pub sum_u64 : ℕ → List ℕ → Option ℕ
sum_u64 total [] = some total
sum_u64 total (w ∷ ws) = and_then (add_u64 total w) (λ t. sum_u64 t ws)

unfoldable pub sum_u128 : ℕ → List ℕ → Option ℕ
sum_u128 total [] = some total
sum_u128 total (w ∷ ws) = and_then (add_u128 total w) (λ t. sum_u128 t ws)

unfoldable pub by_weights : ℕ → List ℕ → Option ℕ → ℕ → Result PlanError (List ℕ × ℕ)
unfolding weighted
by_weights quantity weights summed interval = do
  total ← ok_or summed invalid_schedule
  quantities ← weighted quantity total weights
  ok (quantities, interval)

unfoldable pub vwap_quantities : ℕ → List ℕ → Result PlanError (List ℕ × ℕ)
unfolding by_weights sum_u64
vwap_quantities quantity weights = do
  fail_if (is_empty weights || any_zero weights) invalid_schedule
  by_weights quantity weights (sum_u64 0 weights) 0

-- One turn of the loop over the volumes, on what the turns after it return.
unfoldable pub pov_turn : ℕ → ℕ → Result PlanError (List ℕ × ℕ) → Result PlanError (List ℕ × ℕ)
pov_turn remaining capacity rest = if remaining == 0 then ok ([], 0) else (do
  fits ← ok_or (narrow_nonneg_i64 capacity) invalid_schedule
  (quantities, left) ← rest
  ok (if capacity == 0 then quantities else min capacity remaining ∷ quantities, left))

-- The loop over the volumes: the quantities pushed, and what remains.
unfoldable pub pov_loop : ℕ → ℕ → List ℤ → Result PlanError (List ℕ × ℕ)
unfolding pov_turn
pov_loop bps remaining [] = ok ([], remaining)
pov_loop bps remaining (v ∷ vs) =
    let capacity = pos_part v * bps / 10_000 in
    pov_turn remaining capacity (pov_loop bps (remaining - min capacity remaining) vs)

unfoldable pub whole : ℕ → List ℕ × ℕ → Result PlanError (List ℕ × ℕ)
whole interval (quantities, left) = do
  fail_if (not (left == 0)) invalid_schedule
  ok (quantities, interval)

unfoldable pub pov_quantities : ℕ → ℕ → ℕ → List ℤ → Result PlanError (List ℕ × ℕ)
unfolding pov_loop whole
pov_quantities quantity bps interval volumes = do
  fail_if
      (bps == 0
        || ltb 10_000 bps
        || interval == 0
        || is_empty volumes
        || any (λ v. leb_ℤ v (pos 0)) volumes)
      invalid_schedule
  split ← pov_loop bps quantity volumes
  whole interval split

-- The front-loaded weights: the number of slices left gives the index.
unfoldable pub shortfall_weights : ℕ → ℕ → ℕ → List ℕ
shortfall_weights urgency slices zero = []
shortfall_weights urgency slices (suc left) =
    (10_000 + urgency * left / max slices 1) ∷ shortfall_weights urgency slices left

unfoldable pub shortfall_quantities : ℕ → ℕ → ℕ → ℕ → Result PlanError (List ℕ × ℕ)
unfolding shortfall_weights by_weights sum_u128
shortfall_quantities quantity slices interval urgency = do
  fail_if (slices == 0 || ltb quantity slices || interval == 0 || ltb 10_000 urgency)
      invalid_schedule
  let weights : List ℕ = shortfall_weights urgency slices slices
  by_weights quantity weights (sum_u128 0 weights) interval

unfoldable pub adaptive_quantities :
    ℕ → ℕ → ℕ → ℕ → ℤ → ℤ → ℕ → ℕ → List ℤ → Result PlanError (List ℕ × ℕ)
unfolding pov_quantities shortfall_quantities
adaptive_quantities quantity slices interval urgency spread max_spread volatility max_volatility
      volumes =
    do
      fail_if
          (slices == 0
            || interval == 0
            || urgency == 0
            || ltb 10_000 urgency
            || ltb_ℤ spread (pos 0)
            || leb_ℤ max_spread (pos 0)
            || ltb 100_000 volatility
            || max_volatility == 0
            || is_empty volumes
            || ltb slices (length volumes))
          invalid_schedule
      (if leb_ℤ spread max_spread && leb volatility max_volatility
          then pov_quantities quantity urgency interval volumes
          else shortfall_quantities quantity (min slices quantity) interval (max urgency 7_500))

-- The quantities of the children and the interval between them.
unfoldable pub quantities_of : ℕ → Schedule → Result PlanError (List ℕ × ℕ)
unfolding twap_quantities vwap_quantities pov_quantities shortfall_quantities adaptive_quantities
quantities_of quantity immediate = ok (quantity ∷ [], 0)
quantities_of quantity (twap slices interval) = twap_quantities quantity slices interval
quantities_of quantity (vwap weights) = vwap_quantities quantity weights
quantities_of quantity (pov bps interval volumes) = pov_quantities quantity bps interval volumes
quantities_of quantity (implementation_shortfall slices interval urgency) =
    shortfall_quantities quantity slices interval urgency
quantities_of quantity (adaptive slices interval urgency spread max_spread vol max_vol volumes) =
    adaptive_quantities quantity slices interval urgency spread max_spread vol max_vol volumes

abbrev pub child : OrderIntent → ℕ → ℕ → ℕ → ChildOrder
child intent sequence quantity due = record {
  parent_client_order_id = intent.client_order_id;
  child_sequence = sequence;
  client_order_id = intent.client_order_id ++ (codes "-child-" ++ decimal sequence);
  quantity_ticks = pos quantity;
  due_after_ns = due;
  side = intent.side;
  order_type = intent.order_type;
  limit_price_ticks = intent.limit_price_ticks;
}

-- The child of a quantity at an index.
unfoldable pub numbered_child : OrderIntent → ℕ → ℕ → ℕ → Result PlanError ChildOrder
numbered_child intent interval index quantity = do
  fail_if (ltb u32_max (index + 1)) invalid_schedule
  due ← ok_or (mul_u64 interval (index + 1 - 1)) invalid_schedule
  ok (child intent (index + 1) quantity due)

-- The children from an index on.
unfoldable pub number_children : OrderIntent → ℕ → ℕ → List ℕ → Result PlanError (List ChildOrder)
unfolding numbered_child
number_children intent interval index [] = ok []
number_children intent interval index (q ∷ qs) = do
  first ← numbered_child intent interval index q
  rest ← number_children intent interval (index + 1) qs
  ok (first ∷ rest)

unfoldable pub plan_children : OrderIntent → Schedule → Result PlanError (List ChildOrder)
unfolding quantities_of number_children
plan_children intent schedule = do
  fail_if (leb_ℤ intent.quantity_ticks (pos 0)) invalid_schedule
  (quantities, interval) ← quantities_of (pos_part intent.quantity_ticks) schedule
  number_children intent interval 0 quantities
