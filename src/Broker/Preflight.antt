-- ===== src/Broker/Preflight.antt =====
-- crates/broker-api/src/lib.rs: the capability matrix and its preflight check, which runs before
-- any broker call. A set is a map to the unit type.
pub mod Certified
use insider_trader.Prelude.{
  ℕ, ℤ, pos, pos_part, Ordering, compare, ◌≡◌, ◌↔◌, Bool, not, ◌||◌, Option, none, some, [], arith,
  leb_ℤ, divides_ℕ, if◌then◌else◌, Text, is_blank, is_some, Result, ok, err, ◌>>◌, fail_if,
}
use insider_trader.Maps.{Key, Map, insert, contains_key}
use insider_trader.Market.{AssetClass, asset_rank}
use insider_trader.Broker.{OrderIntent, OrderType, TimeInForce}

pub record TradingSpec : Type 0 where
  pub asset_class : AssetClass
  pub quantity_increment_ticks : ℤ
  pub price_increment_ticks : ℤ

pub record CapabilityKey : Type 0 where
  pub asset_class : AssetClass
  pub order_type : OrderType
  pub time_in_force : TimeInForce

abbrev pub order_rank : OrderType → ℕ
order_rank OrderType.market = 0
order_rank OrderType.limit = 1

abbrev pub force_rank : TimeInForce → ℕ
force_rank TimeInForce.day = 0
force_rank TimeInForce.good_til_cancel = 1
force_rank TimeInForce.immediate_or_cancel = 2

-- `derive(Ord)`: field by field.
abbrev pub capability_cmp : CapabilityKey → CapabilityKey → Ordering
capability_cmp a b = elim (compare (asset_rank a.asset_class) (asset_rank b.asset_class)) [
  | Ordering.eq ↦ elim (compare (order_rank a.order_type) (order_rank b.order_type)) [
    | Ordering.eq ↦ compare (force_rank a.time_in_force) (force_rank b.time_in_force)
    | Ordering.lt ↦ Ordering.lt
    | Ordering.gt ↦ Ordering.gt
  ]
  | Ordering.lt ↦ Ordering.lt
  | Ordering.gt ↦ Ordering.gt
]

asset_rank_inj : (a b : AssetClass) → asset_rank a ≡ asset_rank b → a ≡ b
asset_rank_inj a b h = ground arith

order_rank_inj : (a b : OrderType) → order_rank a ≡ order_rank b → a ≡ b
order_rank_inj a b h = ground arith

force_rank_inj : (a b : TimeInForce) → force_rank a ≡ force_rank b → a ≡ b
force_rank_inj a b h = ground arith

pub capability-cmp_eq : (a b : CapabilityKey) → (capability_cmp a b ≡ Ordering.eq) ↔ (a ≡ b)
capability-cmp_eq a b = ground (
  arith,
  asset_rank_inj a.asset_class b.asset_class,
  order_rank_inj a.order_type b.order_type,
  force_rank_inj a.time_in_force b.time_in_force,
)

instance abbrev pub capability_key : Key CapabilityKey
capability_key = record { cmp = capability_cmp; cmp_eq = capability-cmp_eq }

pub record CapabilityMatrix : Type 0 where
  pub version : Text
  pub supported : Map CapabilityKey (Unit {0})

pub data PreflightError : Type 0 where
  unsupported_capability : CapabilityKey → PreflightError
  invalid_quantity invalid_price invalid_matrix : PreflightError

unfoldable pub new : Text → Result PreflightError CapabilityMatrix
new version =
    if is_blank version
    then err invalid_matrix
    else ok (record { version = version; supported = [] })

unfoldable pub allow : CapabilityMatrix → CapabilityKey → CapabilityMatrix
allow m key = record m { supported = insert key tt m.supported }

unfoldable pub supports : CapabilityMatrix → CapabilityKey → Bool
supports m key = contains_key key m.supported

-- The test of a quantity or a price against its increment.
off_grid : ℤ → ℤ → Bool
off_grid inc x = leb_ℤ inc (pos 0) || leb_ℤ x (pos 0) || not (divides_ℕ (pos_part inc) x)

-- The checks of a limit price.
price_check : TradingSpec → Option ℤ → Result PreflightError (Unit {0})
unfolding off_grid
price_check spec none = err invalid_price
price_check spec (some price) = fail_if (off_grid spec.price_increment_ticks price) invalid_price

order_type_check : OrderType → TradingSpec → Option ℤ → Result PreflightError (Unit {0})
unfolding price_check
order_type_check OrderType.market spec price = fail_if (is_some price) invalid_price
order_type_check OrderType.limit spec price = price_check spec price

abbrev pub intent_key : OrderIntent → TradingSpec → CapabilityKey
intent_key intent spec = record {
  asset_class = spec.asset_class;
  order_type = intent.order_type;
  time_in_force = intent.time_in_force;
}

unfoldable pub preflight :
    CapabilityMatrix → OrderIntent → TradingSpec → Result PreflightError (Unit {0})
unfolding supports order_type_check off_grid
preflight m intent spec = do
  fail_if (not (supports m (intent_key intent spec)))
      (unsupported_capability (intent_key intent spec))
  fail_if (off_grid spec.quantity_increment_ticks intent.quantity_ticks) invalid_quantity
  order_type_check intent.order_type spec intent.limit_price_ticks
