-- ===== src/Ids.antt =====
-- crates/common-types/src/lib.rs: the identities that `define_id!` makes, their text and its parse.
-- An identity is its number; a type of identities is its prefix.
pub mod RoundTrip
use insider_trader.Prelude.{
  ℕ, zero, suc, ◌+◌, ◌-◌, ◌*◌, ◌/◌, ◌%◌, ◌^◌, Bool, ◌&&◌, not, Option, none, some, List, [], ◌∷◌,
  ◌++◌, ltb, leb, ◌==◌, if◌then◌else◌, length, and_then, Text, codes, Result, ok, err, ok_or,
  fail_if, ◌>>=◌, ◌>>◌,
}

-- The cause that the source keeps with `invalid_hex` is left out.
pub data IdError : Type 0 where
  zero_id prefix length_of_body invalid_hex : IdError

-- `new`.
unfoldable pub new_id : ℕ → Result IdError ℕ
new_id value = if value == 0 then err zero_id else ok value

abbrev pub hex_digit : ℕ → ℕ
hex_digit d = if ltb d 10 then 48 + d else 87 + d

-- The last digits of a number, as many as the first argument says.
unfoldable pub hex : ℕ → ℕ → Text
hex zero n = []
hex (suc k) n = hex k (n / 16) ++ (hex_digit (n % 16) ∷ [])

-- `{prefix}_{:032x}`; a `u128` has at most 32 digits.
unfoldable pub display : Text → ℕ → Text
display name n = (name ++ codes "_") ++ hex 32 n

-- `char::to_digit(16)`.
abbrev pub digit_value : ℕ → Option ℕ
digit_value c =
    if leb 48 c && ltb c 58
    then some (c - 48)
    else if leb 97 c && ltb c 103
    then some (c - 87)
    else if leb 65 c && ltb c 71
    then some (c - 55)
    else none

unfoldable pub hex_value : ℕ → Text → Option ℕ
hex_value total [] = some total
hex_value total (c ∷ cs) = and_then (digit_value c) (λ d. hex_value (total * 16 + d) cs)

-- The leading plus sign that `from_str_radix` allows.
abbrev pub without_plus : Text → Text
without_plus [] = []
without_plus (c ∷ cs) = if c == 43 then cs else c ∷ cs

-- `u128::from_str_radix(s, 16)` of 32 characters, whose value fits.
unfoldable pub from_hex : Text → Option ℕ
from_hex s = hex_value 0 (without_plus s)

-- `strip_prefix`.
unfoldable pub strip_prefix : Text → Text → Option Text
strip_prefix [] s = some s
strip_prefix (p ∷ ps) [] = none
strip_prefix (p ∷ ps) (c ∷ cs) = let rest = strip_prefix ps cs in if p == c then rest else none

-- `len`, the bytes of the UTF-8 encoding.
abbrev pub utf8_width : ℕ → ℕ
utf8_width c = if ltb c 0x80 then 1 else if ltb c 0x800 then 2 else if ltb c 0x10000 then 3 else 4

unfoldable pub utf8_length : Text → ℕ
utf8_length [] = 0
utf8_length (c ∷ cs) = utf8_width c + utf8_length cs

unfoldable pub from_str : Text → Text → Result IdError ℕ
from_str name s = do
  numeric ← ok_or (strip_prefix (name ++ codes "_") s) prefix
  fail_if (not (utf8_length numeric == 32)) length_of_body
  value ← ok_or (from_hex numeric) invalid_hex
  new_id value
