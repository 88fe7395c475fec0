-- ===== src/Journal/Digest.antt =====
-- The SHA-256 digest of crates/journal/src/lib.rs. A word is a number below 2 ^ 32.
use Prim.Native.Nat.{bit_and, bit_xor}
use insider_trader.Prelude.{
  ℕ, zero, suc, ◌+◌, ◌-◌, ◌*◌, ◌/◌, ◌%◌, ◌^◌, ◌<◌, ◌≤◌, ◌≡◌, refl, false, List, [], ◌∷◌, ◌++◌,
  reverse, arith, ◌==◌, if◌then◌else◌, length, length-append, take, drop, u32_max, All, append-All,
}

abbrev pub round_constants : List ℕ
round_constants =
    0x428a2f98 ∷ 0x71374491 ∷ 0xb5c0fbcf ∷ 0xe9b5dba5 ∷ 0x3956c25b ∷ 0x59f111f1 ∷ 0x923f82a4
    ∷ 0xab1c5ed5 ∷ 0xd807aa98 ∷ 0x12835b01 ∷ 0x243185be ∷ 0x550c7dc3 ∷ 0x72be5d74 ∷ 0x80deb1fe
    ∷ 0x9bdc06a7 ∷ 0xc19bf174 ∷ 0xe49b69c1 ∷ 0xefbe4786 ∷ 0x0fc19dc6 ∷ 0x240ca1cc ∷ 0x2de92c6f
    ∷ 0x4a7484aa ∷ 0x5cb0a9dc ∷ 0x76f988da ∷ 0x983e5152 ∷ 0xa831c66d ∷ 0xb00327c8 ∷ 0xbf597fc7
    ∷ 0xc6e00bf3 ∷ 0xd5a79147 ∷ 0x06ca6351 ∷ 0x14292967 ∷ 0x27b70a85 ∷ 0x2e1b2138 ∷ 0x4d2c6dfc
    ∷ 0x53380d13 ∷ 0x650a7354 ∷ 0x766a0abb ∷ 0x81c2c92e ∷ 0x92722c85 ∷ 0xa2bfe8a1 ∷ 0xa81a664b
    ∷ 0xc24b8b70 ∷ 0xc76c51a3 ∷ 0xd192e819 ∷ 0xd6990624 ∷ 0xf40e3585 ∷ 0x106aa070 ∷ 0x19a4c116
    ∷ 0x1e376c08 ∷ 0x2748774c ∷ 0x34b0bcb5 ∷ 0x391c0cb3 ∷ 0x4ed8aa4a ∷ 0x5b9cca4f ∷ 0x682e6ff3
    ∷ 0x748f82ee ∷ 0x78a5636f ∷ 0x84c87814 ∷ 0x8cc70208 ∷ 0x90befffa ∷ 0xa4506ceb ∷ 0xbef9a3f7
    ∷ 0xc67178f2 ∷ []

-- `wrapping_add` of 32 bits.
abbrev pub wrapping_add_u32 : ℕ → ℕ → ℕ
wrapping_add_u32 a b = (a + b) % 2 ^ 32

abbrev pub rotate_right : ℕ → ℕ → ℕ
rotate_right x n = x / 2 ^ n + x % 2 ^ n * 2 ^ (32 - n)

abbrev pub xor3 : ℕ → ℕ → ℕ → ℕ
xor3 x y z = bit_xor (bit_xor x y) z

-- `to_be_bytes` and `from_be_bytes`.
unfoldable pub to_be : ℕ → ℕ → List ℕ
to_be zero v = []
to_be (suc k) v = to_be k (v / 256) ++ (v % 256 ∷ [])

abbrev pub from_be : ℕ → List ℕ → ℕ
from_be total [] = total
from_be total (b ∷ bs) = from_be (total * 256 + b) bs

-- The eight words of the state.
pub record Words : Type 0 where
  pub a : ℕ
  pub b : ℕ
  pub c : ℕ
  pub d : ℕ
  pub e : ℕ
  pub f : ℕ
  pub g : ℕ
  pub h : ℕ

abbrev pub initial_words : Words
initial_words = record {
  a = 0x6a09e667;
  b = 0xbb67ae85;
  c = 0x3c6ef372;
  d = 0xa54ff53a;
  e = 0x510e527f;
  f = 0x9b05688c;
  g = 0x1f83d9ab;
  h = 0x5be0cd19;
}

-- The loop that pushes zeros; a round of 64 passes the length that it looks for.
unfoldable pub push_zeros : ℕ → List ℕ → List ℕ
push_zeros zero bytes = bytes
push_zeros (suc fuel) bytes =
    let rest = push_zeros fuel (bytes ++ (0 ∷ [])) in
    if length bytes % 64 == 56 then bytes else rest

unfoldable pub padded : List ℕ → List ℕ
padded input = push_zeros 64 (input ++ (0x80 ∷ [])) ++ to_be 8 (length input * 8 % 2 ^ 64)

-- The word so far before the last of some words, the last of which stands first.
abbrev pub word_before : ℕ → List ℕ → ℕ
word_before n [] = 0
word_before zero (w ∷ ws) = w
word_before (suc n) (w ∷ ws) = word_before n ws

-- The first sixteen words of a chunk, the last of them first.
abbrev pub chunk_words : ℕ → List ℕ → List ℕ → List ℕ
chunk_words zero chunk words = words
chunk_words (suc n) chunk words = chunk_words n (drop 4 chunk) (from_be 0 (take 4 chunk) ∷ words)

abbrev pub next_word : List ℕ → ℕ
next_word words =
    let w15 = word_before 14 words in
    let w2 = word_before 1 words in
    let s0 = xor3 (rotate_right w15 7) (rotate_right w15 18) (w15 / 2 ^ 3) in
    let s1 = xor3 (rotate_right w2 17) (rotate_right w2 19) (w2 / 2 ^ 10) in
    wrapping_add_u32
      (wrapping_add_u32 (wrapping_add_u32 (word_before 15 words) s0) (word_before 6 words)) s1

unfoldable pub more_words : ℕ → List ℕ → List ℕ
more_words zero words = words
more_words (suc n) words = more_words n (next_word words ∷ words)

abbrev pub round : Words → ℕ → ℕ → Words
round s k word =
    let s1 = xor3 (rotate_right s.e 6) (rotate_right s.e 11) (rotate_right s.e 25) in
    let choose = bit_xor (bit_and s.e s.f) (bit_and (u32_max - s.e) s.g) in
    let temp1 =
      wrapping_add_u32 (wrapping_add_u32 (wrapping_add_u32 (wrapping_add_u32 s.h s1) choose) k)
        word in
    let s0 = xor3 (rotate_right s.a 2) (rotate_right s.a 13) (rotate_right s.a 22) in
    let majority = xor3 (bit_and s.a s.b) (bit_and s.a s.c) (bit_and s.b s.c) in
    let temp2 = wrapping_add_u32 s0 majority in
    record {
      a = wrapping_add_u32 temp1 temp2;
      b = s.a;
      c = s.b;
      d = s.c;
      e = wrapping_add_u32 s.d temp1;
      f = s.e;
      g = s.f;
      h = s.g;
    }

unfoldable pub rounds : Words → List ℕ → List ℕ → Words
rounds s [] words = s
rounds s (k ∷ ks) [] = s
rounds s (k ∷ ks) (w ∷ words) = rounds (round s k w) ks words

abbrev pub add_words : Words → Words → Words
add_words s t = record {
  a = wrapping_add_u32 s.a t.a;
  b = wrapping_add_u32 s.b t.b;
  c = wrapping_add_u32 s.c t.c;
  d = wrapping_add_u32 s.d t.d;
  e = wrapping_add_u32 s.e t.e;
  f = wrapping_add_u32 s.f t.f;
  g = wrapping_add_u32 s.g t.g;
  h = wrapping_add_u32 s.h t.h;
}

unfoldable pub compress : Words → List ℕ → Words
compress s chunk =
    add_words s (rounds s round_constants (reverse (more_words 48 (chunk_words 16 chunk []))))

-- The loop over the chunks, of which there are so many.
unfoldable pub compress_all : ℕ → Words → List ℕ → Words
compress_all zero s bytes = s
compress_all (suc n) s bytes = compress_all n (compress s (take 64 bytes)) (drop 64 bytes)

unfoldable pub output : Words → List ℕ
output s =
    to_be 4 s.a
    ++ to_be 4 s.b
    ++ to_be 4 s.c
    ++ to_be 4 s.d
    ++ to_be 4 s.e
    ++ to_be 4 s.f
    ++ to_be 4 s.g
    ++ to_be 4 s.h

to_be-bytes : (k v : ℕ) → All (λ b. b < 256) (to_be k v)
unfolding to_be
to_be-bytes zero v = tt
to_be-bytes (suc k) v =
    append-All (λ b. b < 256) (to_be k (v / 256)) (v % 256 ∷ []) (to_be-bytes k (v / 256))
      (omega arith, tt)

bytes-word :
    (rest : List ℕ) (w : ℕ) → All (λ b. b < 256) rest → All (λ b. b < 256) (rest ++ to_be 4 w)
bytes-word rest w h = append-All (λ b. b < 256) rest (to_be 4 w) h (to_be-bytes 4 w)

length-output : (s : Words) → length (output s) ≡ 32
unfolding output to_be
length-output s = refl

output-bytes : (s : Words) → All (λ b. b < 256) (output s)
unfolding output
output-bytes s = bytes-word _ s.h (
    bytes-word _ s.g (
      bytes-word _ s.f (
        bytes-word _ s.e
          (bytes-word _ s.d (bytes-word _ s.c (bytes-word _ s.b (to_be-bytes 4 s.a)))))))

unfoldable pub sha256 : List ℕ → List ℕ
sha256 input =
    let bytes = padded input in output (compress_all (length bytes / 64) initial_words bytes)

-- The zeros that are pushed until the length leaves 56, when so many rounds reach it.
length-push_zeros :
    (fuel : ℕ) (bytes : List ℕ) (gap : ℕ)
    → gap < fuel
    → (length bytes + gap) % 64 ≡ 56
    → gap < 64
    → length (push_zeros fuel bytes) ≡ length bytes + gap
unfolding push_zeros
length-push_zeros zero bytes gap h m b = absurd (omega (arith, h))
length-push_zeros (suc fuel) bytes zero h m b = ground (arith, m)
length-push_zeros (suc fuel) bytes (suc gap) h m b =
    let longer : length (bytes ++ (0 ∷ [])) ≡ length bytes + 1 = length-append bytes (0 ∷ []) in
    let rest =
      length-push_zeros fuel (bytes ++ (0 ∷ [])) gap (omega (arith, h)) (omega (arith, m, longer))
        (omega (arith, b)) in
    let early : (length bytes % 64 == 56) ≡ false = ground (arith, m, b) in
    rw early (omega (arith, rest, longer))

gap_of : ℕ → ℕ
gap_of n = (56 + 63 - n % 64) % 64

-- The rounds are enough: what is digested is the input with at least nine and at most 72 bytes
-- more, in whole chunks of 64 bytes.
pub length-padded :
    (input : List ℕ)
    → (length (padded input) % 64 ≡ 0)
      × (length input + 9 ≤ length (padded input))
      × (length (padded input) ≤ length input + 72)
unfolding padded gap_of to_be
length-padded input =
    let gap = gap_of (length input) in
    let start : length (input ++ (0x80 ∷ [])) ≡ length input + 1 =
      length-append input (0x80 ∷ []) in
    let zeros =
      length-push_zeros 64 (input ++ (0x80 ∷ [])) gap (omega arith) (omega (arith, start))
        (omega arith) in
    let all =
      length-append (push_zeros 64 (input ++ (0x80 ∷ []))) (to_be 8 (length input * 8 % 2 ^ 64)) in
    (
      omega (arith, start, zeros, all),
      omega (arith, start, zeros, all),
      omega (arith, start, zeros, all),
    )

-- A digest is 32 bytes.
pub sha256-bytes :
    (input : List ℕ) → (length (sha256 input) ≡ 32) × All (λ b. b < 256) (sha256 input)
unfolding sha256
sha256-bytes input =
    let bytes = padded input in
    let s = compress_all (length bytes / 64) initial_words bytes in
    (length-output s, output-bytes s)
