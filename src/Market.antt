-- ===== src/Market.antt =====
-- crates/market-types/src/lib.rs: the asset classes, which the broker and risk crates name.
use insider_trader.Prelude.{ℕ, Ordering, compare, ◌≡◌, ◌↔◌, arith}
use insider_trader.Maps.{Key}

pub data AssetClass : Type 0 where
  equity etf option future fx crypto : AssetClass

-- The order of the constructors, which `derive(Ord)` follows.
abbrev pub asset_rank : AssetClass → ℕ
asset_rank AssetClass.equity = 0
asset_rank AssetClass.etf = 1
asset_rank AssetClass.option = 2
asset_rank AssetClass.future = 3
asset_rank AssetClass.fx = 4
asset_rank AssetClass.crypto = 5

abbrev pub asset_cmp : AssetClass → AssetClass → Ordering
asset_cmp a b = compare (asset_rank a) (asset_rank b)

pub asset-cmp_eq : (a b : AssetClass) → (asset_cmp a b ≡ Ordering.eq) ↔ (a ≡ b)
asset-cmp_eq a b = ground arith

instance abbrev pub asset_key : Key AssetClass
asset_key = record { cmp = asset_cmp; cmp_eq = asset-cmp_eq }
