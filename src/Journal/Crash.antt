-- ===== src/Journal/Crash.antt =====
-- What crates/journal/src/lib.rs finds in its file after an append that failed part way.
use insider_trader.Prelude.{
  ℕ, zero, suc, ◌≤◌, ◌<◌, ◌≡◌, refl, sym, ap, ◌∙◌, true, false, not, some, List, [], ◌∷◌, ◌++◌,
  arith, length, length-append, length-take, is_empty, take, take-append, append_nil, append_assoc,
  All, u64_max, ok, err,
}
use insider_trader.Journal.{
  JournalRecord, Journal, torn, io, max_journal_bytes, magic, header, frame, bytes_eq, read_frame,
  scan_path, next_after, open_journal, written, write_failed, append,
}
use insider_trader.Journal.Frame.{IsEncodable, read_frame-take, length-frame}
use insider_trader.Journal.Log.{
  frames, IsLog, next_after-small, scan_path-frames, append_ok, append_failed,
}

-- A file that ends in bytes that are no frame is opened without them.
open_journal-frames :
    (rs : List JournalRecord) (rest : List ℕ)
    → All IsEncodable rs
    → (is_empty rest ≡ false → read_frame rest ≡ torn)
    → length (frames rs ++ rest) ≤ max_journal_bytes
    → open_journal (some (frames rs ++ rest))
      ≡ ok (record { bytes = frames rs; next_sequence = next_after rs })
unfolding open_journal
open_journal-frames rs [] h t small =
    rw (scan_path-frames rs [] h t small)
      (ap (λ l. ok (record { bytes = l; next_sequence = next_after rs })) (append_nil (frames rs)))
open_journal-frames rs (b ∷ bs) h t small = rw (scan_path-frames rs (b ∷ bs) h t small) (
    ap (λ l. ok (record { bytes = l; next_sequence = next_after rs }))
      (take-append (length (frames rs)) (frames rs) (b ∷ bs) refl))

-- When only some of the bytes of a frame reach the file, fewer than all, opening the journal again
-- gives the journal from before the append: all of its records, and the same next number.
pub open_journal-append :
    (j k : Journal) (rs : List JournalRecord) (payload : List ℕ) (n : ℕ)
    → IsLog j rs
    → n < length (frame j.next_sequence payload)
    → append j payload (write_failed n) ≡ (err io, k)
    → (open_journal (some k.bytes) ≡ ok j) × (k.next_sequence ≡ j.next_sequence)
open_journal-append j k rs payload n log part h =
    let (passes, same) = append_failed j k payload n h in
    let f = frame j.next_sequence payload in
    let tail = take n f in
    let contents : k.bytes ≡ frames rs ++ tail =
      ap (λ l. l.bytes) same ∙ ap (λ l. l ++ tail) log.contents in
    let number : j.next_sequence ≤ u64_max = omega (arith, log.next, next_after-small rs) in
    let size : length (frames rs ++ tail) ≤ max_journal_bytes = omega (
      arith,
      passes.room,
      length-append (frames rs) tail,
      ap length log.contents,
      length-take n f (omega (arith, part)),
      part,
    ) in
    (
      ap (λ l. open_journal (some l)) contents
          ∙ open_journal-frames rs tail log.encodable
              (λ e. read_frame-take j.next_sequence payload n number passes.size part) size
          ∙ ap (λ l. ok (record { bytes = l; next_sequence = next_after rs })) (sym log.contents)
          ∙ ap (λ l. ok (record { bytes = j.bytes; next_sequence = l })) (sym log.next),
      ap (λ l. l.next_sequence) same,
    )

not_magic : (rest : List ℕ) → bytes_eq (take 4 rest) magic ≡ false → read_frame rest ≡ torn
unfolding read_frame
not_magic rest h = ground (arith, h)

-- The magic bytes stand only at the start of a frame.
read_frame-broken :
    (s s2 : ℕ) (p p2 : List ℕ) (n : ℕ)
    → 0 < n
    → n < 4
    → read_frame (take n (frame s p) ++ frame s2 p2) ≡ torn
unfolding frame header
read_frame-broken s s2 p p2 zero lo hi = absurd (omega (arith, lo))
read_frame-broken s s2 p p2 (suc zero) lo hi = not_magic (take 1 (frame s p) ++ frame s2 p2) refl
read_frame-broken s s2 p p2 (suc (suc zero)) lo hi =
    not_magic (take 2 (frame s p) ++ frame s2 p2) refl
read_frame-broken s s2 p p2 (suc (suc (suc zero))) lo hi =
    not_magic (take 3 (frame s p) ++ frame s2 p2) refl
read_frame-broken s s2 p p2 (suc (suc (suc (suc m)))) lo hi = absurd (omega (arith, hi))

-- When one to three bytes of a frame have reached the file and the journal is used further without
-- being opened again, an append that succeeds writes a record that the scan does not find: it ends
-- at the records from before the failure.
pub append_lost :
    (j k m : Journal) (rs : List JournalRecord) (payload later : List ℕ) (n s : ℕ)
    → IsLog j rs
    → 0 < n
    → n < 4
    → append j payload (write_failed n) ≡ (err io, k)
    → append k later written ≡ (ok s, m)
    → scan_path (some m.bytes)
      ≡ ok (record { records = rs; valid_bytes = length j.bytes; has_invalid_tail = true })
append_lost j k m rs payload later n s log lo hi failed appended =
    let (passes, same) = append_failed j k payload n failed in
    let (fits, kept) = append_ok k m later s appended in
    let tail = take n (frame j.next_sequence payload) ++ frame k.next_sequence later in
    let contents : m.bytes ≡ frames rs ++ tail =
      ap (λ o. o.1.bytes) kept
      ∙ ap (λ l. l.bytes ++ frame k.next_sequence later) same
      ∙ append_assoc j.bytes (take n (frame j.next_sequence payload)) (frame k.next_sequence later)
      ∙ ap (λ l. l ++ tail) log.contents in
    let size : length (frames rs ++ tail) ≤ max_journal_bytes = omega (
      arith,
      fits.room,
      ap length contents,
      ap (λ o. length o.1.bytes) kept,
      length-append k.bytes (frame k.next_sequence later),
    ) in
    let found : is_empty tail ≡ false =
      some_bytes (frame j.next_sequence payload) (frame k.next_sequence later) n
        (frame_size j.next_sequence payload) lo in
    ap (λ l. scan_path (some l)) contents
    ∙ scan_path-frames rs tail log.encodable
        (λ e. read_frame-broken j.next_sequence k.next_sequence payload later n lo hi) size
    ∙ ap
        (λ b.
          ok (record { records = rs; valid_bytes = length (frames rs); has_invalid_tail = not b }))
        found
    ∙ ap (λ l. ok (record { records = rs; valid_bytes = length l; has_invalid_tail = true }))
        (sym log.contents)
  where
    some_bytes : (f g : List ℕ) (n : ℕ) → 0 < length f → 0 < n → is_empty (take n f ++ g) ≡ false
    some_bytes f g zero hf hn = absurd (omega (arith, hn))
    some_bytes [] g (suc n) hf hn = absurd (omega (arith, hf))
    some_bytes (b ∷ f) g (suc n) hf hn = refl

    frame_size : (s : ℕ) (p : List ℕ) → 0 < length (frame s p)
    frame_size s p = omega (arith, length-frame s p)
