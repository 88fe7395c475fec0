-- ===== src/Journal/Seal/RoundTrip.antt =====
-- What the seals and backups of crates/journal/src/lib.rs write, checked and restored.
use insider_trader.Prelude.{
  ℕ, ◌*◌, ◌/◌, ◌%◌, ◌<◌, ◌≤◌, ◌≡◌, ◌↔◌, refl, ap, ◌∙◌, arith, true, false, Option, some, List, [],
  ◌∷◌, ◌++◌, if◌then◌else◌, length, all, all-append, and_then, All, Text, is_whitespace, ok,
}
use insider_trader.Ids.{hex, hex_digit, utf8_length}
use insider_trader.Ids.RoundTrip.{from_hex-hex, utf8_length-append, utf8_length-hex}
use insider_trader.Journal.{max_journal_bytes, bytes_eq}
use insider_trader.Journal.Digest.{sha256, sha256-bytes}
use insider_trader.Journal.Seal.{
  Contents, utf8, hex_digest, is_hexdigit, parse_pairs, parse_hex_digest, trim_start, trim_end,
  trim, read_journal_bytes, read_seal_text, seal_text, seal, verify_seal, published,
  verified_source,
}

pub bytes_eq_iff : (xs ys : List ℕ) → (bytes_eq xs ys ≡ true) ↔ (xs ≡ ys)
bytes_eq_iff [] [] = ((λ h. refl), (λ h. refl))
bytes_eq_iff [] (y ∷ ys) = ((λ h. cc), (λ h. cc))
bytes_eq_iff (x ∷ xs) [] = ((λ h. cc), (λ h. cc))
bytes_eq_iff (x ∷ xs) (y ∷ ys) = ground (arith, bytes_eq_iff xs ys)

hexdigit_dark : (c : ℕ) → is_hexdigit c ≡ true → is_whitespace c ≡ false
unfolding is_whitespace
hexdigit_dark c h = ground (arith, h)

trim_end-line : (xs : Text) → all is_hexdigit xs ≡ true → trim_end (xs ++ (10 ∷ [])) ≡ xs
unfolding trim_end is_whitespace
trim_end-line [] h = refl
trim_end-line (c ∷ cs) h =
    let (first, rest) : (is_hexdigit c ≡ true) × (all is_hexdigit cs ≡ true) = ground (arith, h) in
    let dark = hexdigit_dark c first in
    let same = trim_end-line cs rest in ground (arith, dark, same)

trim_start-line :
    (xs : Text)
    → all is_hexdigit xs ≡ true
    → trim_end (trim_start (xs ++ (10 ∷ []))) ≡ trim_end (xs ++ (10 ∷ []))
unfolding trim_start trim_end is_whitespace
trim_start-line [] h = refl
trim_start-line (c ∷ cs) h =
    let first : is_hexdigit c ≡ true = ground (arith, h) in
    ap (λ w. trim_end (if w then trim_start (cs ++ (10 ∷ [])) else c ∷ (cs ++ (10 ∷ []))))
      (hexdigit_dark c first)

hexdigit-hex_digit : (d : ℕ) → d < 16 → is_hexdigit (hex_digit d) ≡ true
hexdigit-hex_digit d h = ground (arith, h)

hexdigits-hex : (b : ℕ) → all is_hexdigit (hex 2 b) ≡ true
unfolding hex
hexdigits-hex b = ground (
  arith,
  hexdigit-hex_digit (b / 16 % 16) (omega arith),
  hexdigit-hex_digit (b % 16) (omega arith),
)

hexdigits-hex_digest : (d : List ℕ) → all is_hexdigit (hex_digest d) ≡ true
unfolding hex_digest
hexdigits-hex_digest [] = refl
hexdigits-hex_digest (b ∷ bs) = ground (
  arith,
  all-append is_hexdigit (hex 2 b) (hex_digest bs),
  hexdigits-hex b,
  hexdigits-hex_digest bs,
)

utf8_length-hex_digest : (d : List ℕ) → utf8_length (hex_digest d) ≡ 2 * length d
unfolding hex_digest utf8_length
utf8_length-hex_digest [] = refl
utf8_length-hex_digest (b ∷ bs) = omega (
  arith,
  utf8_length-append (hex 2 b) (hex_digest bs),
  utf8_length-hex 2 b,
  utf8_length-hex_digest bs,
)

parse_pairs-hex :
    (b : ℕ) (cs : Text)
    → b < 256
    → parse_pairs (hex 2 b ++ cs) ≡ and_then (parse_pairs cs) (λ bs. some (b ∷ bs))
unfolding parse_pairs hex
parse_pairs-hex b cs h =
    ap (λ o. and_then o (λ b. and_then (parse_pairs cs) (λ bs. some (b ∷ bs)))) (from_hex-hex 1 b h)

parse_pairs-hex_digest : (d : List ℕ) → All (λ b. b < 256) d → parse_pairs (hex_digest d) ≡ some d
unfolding hex_digest parse_pairs
parse_pairs-hex_digest [] h = refl
parse_pairs-hex_digest (b ∷ bs) h =
    parse_pairs-hex b (hex_digest bs) h.0
    ∙ ap (λ o. and_then o (λ bs. some (b ∷ bs))) (parse_pairs-hex_digest bs h.1)

-- The text of a digest of 32 bytes, as the sidecar holds it, is read back as the digest.
pub parse_hex_digest-seal_text :
    (d : List ℕ)
    → length d ≡ 32
    → All (λ b. b < 256) d
    → parse_hex_digest (trim (seal_text d)) ≡ some d
unfolding parse_hex_digest
parse_hex_digest-seal_text d size bytes =
    let digits = hexdigits-hex_digest d in
    let bare : trim (seal_text d) ≡ hex_digest d =
      trim_start-line (hex_digest d) digits ∙ trim_end-line (hex_digest d) digits in
    let long : utf8_length (hex_digest d) ≡ 64 = omega (arith, utf8_length-hex_digest d, size) in
    rw (bare, long, digits) (parse_pairs-hex_digest d bytes)

read_seal_text-seal_text :
    (d : List ℕ) → length d ≡ 32 → read_seal_text (some (utf8 (seal_text d))) ≡ ok (seal_text d)
unfolding read_seal_text utf8_length
read_seal_text-seal_text d size =
    let long : utf8_length (seal_text d) ≡ 65 =
      omega (arith, utf8_length-append (hex_digest d) (10 ∷ []), utf8_length-hex_digest d, size) in
    rw long refl

pub read_journal_bytes-small :
    (bytes : List ℕ) → length bytes ≤ max_journal_bytes → read_journal_bytes (some bytes) ≡ ok bytes
unfolding read_journal_bytes
read_journal_bytes-small bytes h = ground (arith, h)

same_bytes : (d : List ℕ) → bytes_eq d d ≡ true
same_bytes d = (bytes_eq_iff d d).1 refl

seal-small :
    (path : Text) (bytes : List ℕ) (old : Option Contents)
    → length bytes ≤ max_journal_bytes
    → seal (record { path = path; file = some bytes; sidecar = old })
      ≡ (ok (sha256 bytes), published path bytes)
unfolding seal
seal-small path bytes old h = rw (read_journal_bytes-small bytes h, seal) refl

verify_seal-published :
    (path : Text) (bytes : List ℕ)
    → length bytes ≤ max_journal_bytes
    → verify_seal (published path bytes) ≡ ok (sha256 bytes)
unfolding verify_seal
verify_seal-published path bytes h =
    let (size, small) = sha256-bytes bytes in
    rw
      (
        read_journal_bytes-small bytes h,
        read_seal_text-seal_text (sha256 bytes) size,
        parse_hex_digest-seal_text (sha256 bytes) size small,
        same_bytes (sha256 bytes),
        verify_seal,
      )
      refl

-- A journal that fits its bound is sealed with its digest, and the seal is verified.
pub verify_seal-seal :
    (path : Text) (bytes : List ℕ) (old : Option Contents)
    → length bytes ≤ max_journal_bytes
    → let s = seal (record { path = path; file = some bytes; sidecar = old }) in
      (s.0 ≡ ok (sha256 bytes)) × (verify_seal s.1 ≡ ok (sha256 bytes))
verify_seal-seal path bytes old h =
    let sealed = seal-small path bytes old h in
    (ap (λ s. s.0) sealed, ap (λ s. verify_seal s.1) sealed ∙ verify_seal-published path bytes h)

pub verified_source-published :
    (path : Text) (bytes : List ℕ)
    → length bytes ≤ max_journal_bytes
    → verified_source (published path bytes) ≡ ok bytes
unfolding verified_source
verified_source-published path bytes h =
    let (size, small) = sha256-bytes bytes in
    rw
      (
        read_journal_bytes-small bytes h,
        read_seal_text-seal_text (sha256 bytes) size,
        parse_hex_digest-seal_text (sha256 bytes) size small,
        same_bytes (sha256 bytes),
        verified_source,
      )
      refl
