-- ===== src/Broker/Preflight/Certified.antt =====
-- What the preflight check of crates/broker-api/src/lib.rs accepts, described without its tests.
use insider_trader.Prelude.{
  ℕ, ℤ, pos, pos_part, ◌*◌, ◌<◌, ◌≡◌, ◌↔◌, true, none, some, Option, ok, arith, refl, false, ◌/◌,
}
use native.Mathlib.Nat.{mul-mod_left}
use insider_trader.Broker.{OrderIntent, OrderType}
use insider_trader.Broker.Preflight.{
  TradingSpec, CapabilityMatrix, supports, intent_key, preflight, price_check, order_type_check,
  off_grid,
}

-- A positive multiple of a positive increment.
abbrev pub IsMultiple : ℤ → ℤ → Type 0
IsMultiple inc x = (n : ℕ) × (k : ℕ) × (inc ≡ pos n) × (x ≡ pos (k * n)) × (0 < n) × (0 < k)

-- The price that an order type asks for.
abbrev pub IsPriced : OrderType → TradingSpec → Option ℤ → Type 0
IsPriced OrderType.market spec price = price ≡ none
IsPriced OrderType.limit spec price =
    (x : ℤ) × (price ≡ some x) × IsMultiple spec.price_increment_ticks x

abbrev pub IsCertified : CapabilityMatrix → OrderIntent → TradingSpec → Type 0
IsCertified m intent spec =
    (supports m (intent_key intent spec) ≡ true)
    × IsMultiple spec.quantity_increment_ticks intent.quantity_ticks
    × IsPriced intent.order_type spec intent.limit_price_ticks

IsMultiple-of_on_grid : (inc x : ℤ) → off_grid inc x ≡ false → IsMultiple inc x
unfolding off_grid
IsMultiple-of_on_grid inc x h = (
  pos_part inc,
  pos_part x / pos_part inc,
  ground arith,
  ground arith,
  ground arith,
  ground arith,
)

on_grid_of_multiple : (inc x : ℤ) → IsMultiple inc x → off_grid inc x ≡ false
unfolding off_grid
on_grid_of_multiple inc x (n, k, e, f, p, q) = rw (e, f) (grind (arith, mul-mod_left k n))

ruleset grid = (arith, IsMultiple-of_on_grid, on_grid_of_multiple)

price_check_sound :
    (spec : TradingSpec) (price : Option ℤ) (kind : OrderType)
    → order_type_check kind spec price ≡ ok tt
    → IsPriced kind spec price
unfolding order_type_check price_check
price_check_sound spec none OrderType.market h = refl
price_check_sound spec (some x) OrderType.market h = cc
price_check_sound spec none OrderType.limit h = cc
price_check_sound spec (some x) OrderType.limit h =
    (x, refl, IsMultiple-of_on_grid spec.price_increment_ticks x (unfold off_grid in ground arith))

preflight_sound :
    (m : CapabilityMatrix) (intent : OrderIntent) (spec : TradingSpec)
    → preflight m intent spec ≡ ok tt
    → IsCertified m intent spec
unfolding preflight
preflight_sound m intent spec h = (
  ground arith,
  IsMultiple-of_on_grid spec.quantity_increment_ticks intent.quantity_ticks (ground arith),
  price_check_sound spec intent.limit_price_ticks intent.order_type (ground arith),
)

price_check_complete :
    (spec : TradingSpec) (price : Option ℤ) (kind : OrderType)
    → IsPriced kind spec price
    → order_type_check kind spec price ≡ ok tt
unfolding order_type_check price_check
price_check_complete spec price OrderType.market h = rw h
price_check_complete spec price OrderType.limit (x, e, m) =
    rw (e, price_check, on_grid_of_multiple spec.price_increment_ticks x m)

preflight_complete :
    (m : CapabilityMatrix) (intent : OrderIntent) (spec : TradingSpec)
    → IsCertified m intent spec
    → preflight m intent spec ≡ ok tt
unfolding preflight
preflight_complete m intent spec (key, qty, price) = rw (
  key,
  on_grid_of_multiple spec.quantity_increment_ticks intent.quantity_ticks qty,
  price_check_complete spec intent.limit_price_ticks intent.order_type price,
)

-- An intent passes preflight exactly when the matrix certifies its combination, its quantity is a
-- positive multiple of a positive increment, and it is a market order with no price or a limit
-- order whose price is a positive multiple of a positive increment.
pub preflight-IsCertified :
    (m : CapabilityMatrix) (intent : OrderIntent) (spec : TradingSpec)
    → (preflight m intent spec ≡ ok tt) ↔ IsCertified m intent spec
preflight-IsCertified m intent spec =
    (preflight_sound m intent spec, preflight_complete m intent spec)
