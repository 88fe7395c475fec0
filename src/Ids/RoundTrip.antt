-- ===== src/Ids/RoundTrip.antt =====
-- The text of an identity of crates/common-types/src/lib.rs, read back.
use insider_trader.Prelude.{
  Option-cases, inl, inr, ap, ◌∙◌, not, ℕ, zero, suc, ◌+◌, ◌*◌, ◌/◌, ◌%◌, ◌^◌, ◌<◌, ◌≡◌, refl, Bool,
  true, false, some, [], ◌∷◌, ◌++◌, arith, ◌==◌, Text, codes, ok,
}
use insider_trader.Ids.{
  utf8_length, hex_digit, hex, display, digit_value, hex_value, without_plus, from_hex,
  strip_prefix, new_id, from_str,
}

strip_prefix-append : (p s : Text) → strip_prefix p (p ++ s) ≡ some s
unfolding strip_prefix
strip_prefix-append [] s = refl
strip_prefix-append (c ∷ p) s = ground (arith, strip_prefix-append p s)

digit_value-hex_digit : (d : ℕ) → d < 16 → digit_value (hex_digit d) ≡ some d
digit_value-hex_digit d h = ground (arith, h)

hex_value-append :
    (total : ℕ) (xs ys : Text) (v : ℕ)
    → hex_value total xs ≡ some v
    → hex_value total (xs ++ ys) ≡ hex_value v ys
unfolding hex_value
hex_value-append total [] ys v h = ground (arith, h)
hex_value-append total (x ∷ xs) ys v h = elim (Option-cases (digit_value x)) [
  | inl e ↦ ground (arith, h, e)
  | inr (d, e) ↦ ground (arith, h, e, hex_value-append (total * 16 + d) xs ys v)
]

next_power : (k : ℕ) → 16 ^ suc k ≡ 16 * 16 ^ k
next_power k = omega arith

last_digit : (v d : ℕ) → d < 16 → hex_value v (hex_digit d ∷ []) ≡ some (v * 16 + d)
unfolding hex_value
last_digit v d h = rw (digit_value-hex_digit d h) refl

hex_value-hex : (k n : ℕ) → n < 16 ^ k → hex_value 0 (hex k n) ≡ some n
unfolding hex hex_value
hex_value-hex zero n h = ap some (omega (arith, h))
hex_value-hex (suc k) n h =
    let bound : n / 16 < 16 ^ k = omega (arith, h, next_power k) in
    let front =
      hex_value-append 0 (hex k (n / 16)) (hex_digit (n % 16) ∷ []) (n / 16)
        (hex_value-hex k (n / 16) bound) in
    front ∙ last_digit (n / 16) (n % 16) (omega arith) ∙ ap some (omega arith)

pub utf8_length-append : (xs ys : Text) → utf8_length (xs ++ ys) ≡ utf8_length xs + utf8_length ys
unfolding utf8_length
utf8_length-append [] ys = omega arith
utf8_length-append (x ∷ xs) ys = omega (arith, utf8_length-append xs ys)

hex_digit_width : (d : ℕ) → d < 16 → utf8_length (hex_digit d ∷ []) ≡ 1
unfolding utf8_length
hex_digit_width d h = ground (arith, h)

mod_bound : (n : ℕ) → n % 16 < 16
mod_bound n = omega arith

pub utf8_length-hex : (k n : ℕ) → utf8_length (hex k n) ≡ k
unfolding hex utf8_length
utf8_length-hex zero n = refl
utf8_length-hex (suc k) n = omega (
  arith,
  utf8_length-hex k (n / 16),
  utf8_length-append (hex k (n / 16)) (hex_digit (n % 16) ∷ []),
  hex_digit_width (n % 16) (mod_bound n),
)

-- A text that starts with another character than a plus sign.
abbrev starts_well : Text → Bool
starts_well [] = false
starts_well (c ∷ cs) = not (c == 43)

starts_well-append : (xs ys : Text) → starts_well xs ≡ true → starts_well (xs ++ ys) ≡ true
starts_well-append [] ys h = cc
starts_well-append (c ∷ cs) ys h = h

starts_well-hex : (k n : ℕ) → starts_well (hex (suc k) n) ≡ true
unfolding hex
starts_well-hex zero n = ground (arith, mod_bound n)
starts_well-hex (suc k) n =
    starts_well-append (hex (suc k) (n / 16)) (hex_digit (n % 16) ∷ []) (starts_well-hex k (n / 16))

without_plus_lem : (s : Text) → starts_well s ≡ true → without_plus s ≡ s
without_plus_lem [] h = refl
without_plus_lem (c ∷ cs) h = ground (arith, h)

-- A number of so many digits is read back.
pub from_hex-hex : (k n : ℕ) → n < 16 ^ suc k → from_hex (hex (suc k) n) ≡ some n
unfolding from_hex
from_hex-hex k n h =
    ap (hex_value 0) (without_plus_lem (hex (suc k) n) (starts_well-hex k n))
    ∙ hex_value-hex (suc k) n h

-- The text of an identity that is not zero and has 128 bits, with any prefix, is read back as that
-- identity.
pub from_str-display :
    (name : Text) (n : ℕ) → 0 < n → n < 2 ^ 128 → from_str name (display name n) ≡ ok n
unfolding from_str display new_id
from_str-display name n positive fits =
    let stripped = strip_prefix-append (name ++ codes "_") (hex 32 n) in
    let body = utf8_length-hex 32 n in
    let value = from_hex-hex 31 n fits in
    let not_zero : (n == 0) ≡ false = ground (arith, positive) in
    rw (stripped, body, value, not_zero) refl

-- A body of a plus sign and 31 digits is read too, as the identity that the digits are, so that an
-- identity of 124 bits has a second text.
pub from_str_plus :
    (name : Text) (n : ℕ)
    → 0 < n
    → n < 2 ^ 124
    → from_str name ((name ++ codes "_") ++ (43 ∷ hex 31 n)) ≡ ok n
unfolding from_str from_hex new_id utf8_length
from_str_plus name n positive fits =
    let stripped = strip_prefix-append (name ++ codes "_") (43 ∷ hex 31 n) in
    let body : utf8_length (43 ∷ hex 31 n) ≡ 32 = omega (arith, utf8_length-hex 31 n) in
    let value = hex_value-hex 31 n fits in
    let not_zero : (n == 0) ≡ false = ground (arith, positive) in
    rw (stripped, body, value, not_zero) refl
