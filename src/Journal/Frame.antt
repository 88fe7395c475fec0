-- ===== src/Journal/Frame.antt =====
-- Reading the frames of crates/journal/src/lib.rs back.
use insider_trader.Prelude.{
  Bool-cases, inl, inr, length-take, take-append_more, ℕ, ◌+◌, ◌-◌, ◌≤◌, ◌<◌, ◌^◌, ◌≡◌, refl, sym,
  ap, ◌∙◌, subst, true, false, List, ◌++◌, arith, ltb, ◌==◌, length, length-append, take, drop,
  take-append, drop-append, append_assoc, to_le, from_le, from_le-to_le, length-to_le, u32_max,
  u64_max,
}
use insider_trader.Journal.{
  JournalRecord, magic, header, frame, crc32c, torn, whole, bytes_eq, read_body, read_frame,
}

-- A record that a frame can hold.
pub record IsEncodable (r : JournalRecord) : Type 0 where
  pub number : r.sequence ≤ u64_max
  pub size : length r.payload ≤ u32_max

pub length-header : (s n : ℕ) → length (header s n) ≡ 18
unfolding header to_le
length-header s n = refl

pub length-frame : (s : ℕ) (p : List ℕ) → length (frame s p) ≡ length p + 22
unfolding frame
length-frame s p =
    let body = header s (length p) ++ p in
    omega (
      arith,
      length-append body (to_le 4 (crc32c body)),
      length-append (header s (length p)) p,
      length-header s (length p),
      length-to_le 4 (crc32c body),
    )

header-magic : (s n : ℕ) (rest : List ℕ) → bytes_eq (take 4 (header s n ++ rest)) magic ≡ true
unfolding header to_le
header-magic s n rest = refl

header_version : (s n : ℕ) (rest : List ℕ) → from_le (take 2 (drop 4 (header s n ++ rest))) ≡ 1
unfolding header to_le from_le
header_version s n rest = refl

header_sequence : (s n : ℕ) (rest : List ℕ) → take 8 (drop 6 (header s n ++ rest)) ≡ to_le 8 s
unfolding header to_le
header_sequence s n rest = refl

header_size : (s n : ℕ) (rest : List ℕ) → take 4 (drop 14 (header s n ++ rest)) ≡ to_le 4 n
unfolding header to_le
header_size s n rest = refl

header_long : (s n : ℕ) (rest : List ℕ) → ltb (length (header s n ++ rest)) 18 ≡ false
header_long s n rest = ground (arith, length-append (header s n) rest, length-header s n)

-- What follows a header is read as the rest of its frame.
pub read_frame-header :
    (s n : ℕ) (rest : List ℕ)
    → s ≤ u64_max
    → n ≤ u32_max
    → read_frame (header s n ++ rest) ≡ read_body (header s n ++ rest) s n
unfolding read_frame
read_frame-header s n rest hs hn =
    rw
      (
        header_long s n rest,
        header-magic s n rest,
        header_version s n rest,
        header_sequence s n rest,
        header_size s n rest,
        from_le-to_le 8 s (omega (arith, hs)),
        from_le-to_le 4 n (omega (arith, hn)),
      )
      refl

crc_small : (bytes : List ℕ) → crc32c bytes < 256 ^ 4
unfolding crc32c
crc_small bytes = omega arith

read_body_whole :
    (rest : List ℕ) (s n crc : ℕ)
    → 18 + n + 4 ≤ length rest
    → crc32c (take (18 + n) rest) ≡ crc
    → from_le (take 4 (drop (18 + n) rest)) ≡ crc
    → read_body rest s n
      ≡ whole (record { sequence = s; payload = take n (drop 18 rest) }) (18 + n + 4)
unfolding read_body
read_body_whole rest s n crc size computed stored =
    let enough : ltb (length rest) (18 + n + 4) ≡ false = ground (arith, size) in
    let same : (crc == crc) ≡ true = ground arith in rw (enough, computed, stored, same) refl

pub read_frame-frame :
    (s : ℕ) (p rest : List ℕ)
    → s ≤ u64_max
    → length p ≤ u32_max
    → read_frame (frame s p ++ rest)
      ≡ whole (record { sequence = s; payload = p }) (length (frame s p))
unfolding frame
read_frame-frame s p rest hs hp =
    let n = length p in
    let body = header s n ++ p in
    let check = to_le 4 (crc32c body) in
    let framed : List ℕ = (body ++ check) ++ rest in
    let split : framed ≡ body ++ (check ++ rest) = append_assoc body check rest in
    let opened : framed ≡ header s n ++ (p ++ (check ++ rest)) =
      split ∙ append_assoc (header s n) p (check ++ rest) in
    let size : length body ≡ 18 + n =
      omega (arith, length-append (header s n) p, length-header s n) in
    let head : read_frame framed ≡ read_body framed s n =
      subst (λ l. read_frame l ≡ read_body l s n) (sym opened)
        (read_frame-header s n (p ++ (check ++ rest)) hs hp) in
    head
    ∙ read_body_whole framed s n (crc32c body)
        (omega (
          arith,
          ap length split,
          length-append body (check ++ rest),
          length-append check rest,
          size,
          length-to_le 4 (crc32c body),
        ))
        (ap (λ l. crc32c (take (18 + n) l)) split
          ∙ ap crc32c (take-append (18 + n) body (check ++ rest) size))
        (ap (λ l. from_le (take 4 (drop (18 + n) l))) split
          ∙ ap (λ l. from_le (take 4 l)) (drop-append (18 + n) body (check ++ rest) size)
          ∙ ap from_le (take-append 4 check rest (length-to_le 4 (crc32c body)))
          ∙ from_le-to_le 4 (crc32c body) (crc_small body))
    ∙ ap (λ l. whole (record { sequence = s; payload = l }) (18 + n + 4))
        (payload_back framed opened)
    ∙ ap (λ k. whole (record { sequence = s; payload = p }) k) (omega (arith, length-frame s p))
  where
    payload_back :
        (l : List ℕ)
        → l ≡ header s (length p) ++ (p ++ (to_le 4 (crc32c (header s (length p) ++ p)) ++ rest))
        → take (length p) (drop 18 l) ≡ p
    payload_back l e =
        let after = to_le 4 (crc32c (header s (length p) ++ p)) ++ rest in
        ap (λ l. take (length p) (drop 18 l)) e
        ∙ ap (take (length p))
            (drop-append 18 (header s (length p)) (p ++ after) (length-header s (length p)))
        ∙ take-append (length p) p after refl

read_frame_short : (rest : List ℕ) → length rest < 18 → read_frame rest ≡ torn
unfolding read_frame
read_frame_short rest h =
    let short : ltb (length rest) 18 ≡ true = ground (arith, h) in rw short refl

read_body_short : (rest : List ℕ) (s n : ℕ) → length rest < 18 + n + 4 → read_body rest s n ≡ torn
unfolding read_body
read_body_short rest s n h =
    let short : ltb (length rest) (18 + n + 4) ≡ true = ground (arith, h) in rw short refl

-- A part of a frame is no frame.
pub read_frame-take :
    (s : ℕ) (p : List ℕ) (n : ℕ)
    → s ≤ u64_max
    → length p ≤ u32_max
    → n < length (frame s p)
    → read_frame (take n (frame s p)) ≡ torn
unfolding frame
read_frame-take s p n hs hp h = elim (Bool-cases (ltb n 18)) [
  | inl short ↦
      read_frame_short (take n (frame s p))
        (ground (arith, short, length-take n (frame s p) (omega (arith, h))))
  | inr enough ↦
      let m = n - 18 in
      let tail = p ++ to_le 4 (crc32c (header s (length p) ++ p)) in
      let count : n ≡ 18 + m = ground (arith, enough) in
      let cut : take n (frame s p) ≡ header s (length p) ++ take m tail =
        ap (λ k. take k (frame s p)) count
        ∙ ap (take (18 + m))
            (append_assoc (header s (length p)) p (to_le 4 (crc32c (header s (length p) ++ p))))
        ∙ take-append_more 18 m (header s (length p)) tail (length-header s (length p)) in
      let size : length (take n (frame s p)) ≡ n = length-take n (frame s p) (omega (arith, h)) in
      ap read_frame cut
      ∙ read_frame-header s (length p) (take m tail) hs hp
      ∙ read_body_short (header s (length p) ++ take m tail) s (length p)
          (omega (arith, ap length cut, size, h, length-frame s p))
]
