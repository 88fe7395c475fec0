-- ===== src/Prelude/Machine.antt =====
-- Rust's fixed-width integers: values of `i64` and `i128` are integers, and the checked operations
-- return `none` where the result does not fit.
use Prim.Native.Nat.{ℕ, ◌+◌, ◌*◌, ◌^◌, min}
use mathlib.Core.Path.{◌≡◌, refl}
use mathlib.Core.Bool.{Bool, true, ◌&&◌}
use mathlib.Core.Option.{Option, none, some}
use native.Mathlib.Omega.{arith}
use insider_trader.Prelude.Tests.{ltb, leb, if◌then◌else◌}
use insider_trader.Prelude.Int.{ℤ, pos, pos_part, neg_part, ◌+ℤ◌, ◌-ℤ◌, ◌*ℤ◌, neg}

abbrev pub u32_max : ℕ
u32_max = 4_294_967_295

abbrev pub u64_max : ℕ
u64_max = 18_446_744_073_709_551_615

unfoldable pub in_i64 : ℤ → Bool
in_i64 a = ltb (pos_part a) (2 ^ 63) && leb (neg_part a) (2 ^ 63)

unfoldable pub in_i128 : ℤ → Bool
in_i128 a = ltb (pos_part a) (2 ^ 127) && leb (neg_part a) (2 ^ 127)

-- `i64::try_from`, and the test at the end of each checked operation.
abbrev pub narrow_i64 : ℤ → Option ℤ
narrow_i64 a = if in_i64 a then some a else none

abbrev pub narrow_i128 : ℤ → Option ℤ
narrow_i128 a = if in_i128 a then some a else none

abbrev pub add_i64 : ℤ → ℤ → Option ℤ
add_i64 a b = narrow_i64 (a +ℤ b)

abbrev pub sub_i64 : ℤ → ℤ → Option ℤ
sub_i64 a b = narrow_i64 (a -ℤ b)

abbrev pub mul_i64 : ℤ → ℤ → Option ℤ
mul_i64 a b = narrow_i64 (a *ℤ b)

abbrev pub add_i128 : ℤ → ℤ → Option ℤ
add_i128 a b = narrow_i128 (a +ℤ b)

abbrev pub sub_i128 : ℤ → ℤ → Option ℤ
sub_i128 a b = narrow_i128 (a -ℤ b)

abbrev pub mul_i128 : ℤ → ℤ → Option ℤ
mul_i128 a b = narrow_i128 (a *ℤ b)

-- `u64::checked_add` and `checked_mul`.
abbrev pub narrow_u64 : ℕ → Option ℕ
narrow_u64 a = if leb a u64_max then some a else none

abbrev pub add_u64 : ℕ → ℕ → Option ℕ
add_u64 a b = narrow_u64 (a + b)

abbrev pub mul_u64 : ℕ → ℕ → Option ℕ
mul_u64 a b = narrow_u64 (a * b)

-- `u64::saturating_add` and `saturating_mul`.
abbrev pub saturating_add_u64 : ℕ → ℕ → ℕ
saturating_add_u64 a b = min (a + b) u64_max

abbrev pub saturating_mul_u64 : ℕ → ℕ → ℕ
saturating_mul_u64 a b = min (a * b) u64_max

-- The negation of an `i64` fits in an `i128`, and so does zero.
pub neg_fits : (a : ℤ) → in_i64 a ≡ true → in_i128 (neg a) ≡ true
unfolding in_i64 in_i128 neg
neg_fits a h = ground arith

pub zero_fits : in_i128 (pos 0) ≡ true
unfolding in_i128
zero_fits = refl

-- An `i128` that is known to be non-negative, as a natural number.
abbrev pub narrow_nonneg_i128 : ℕ → Option ℕ
narrow_nonneg_i128 a = if ltb a (2 ^ 127) then some a else none

-- `i64::try_from` of a non-negative value.
abbrev pub narrow_nonneg_i64 : ℕ → Option ℕ
narrow_nonneg_i64 a = if ltb a (2 ^ 63) then some a else none

-- `u128::checked_add`.
abbrev pub add_u128 : ℕ → ℕ → Option ℕ
add_u128 a b = if ltb (a + b) (2 ^ 128) then some (a + b) else none
