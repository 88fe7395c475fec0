-- ===== src/Journal/Log.antt =====
-- The file that the appends of crates/journal/src/lib.rs write, and what its scan finds.
use insider_trader.Prelude.{
  subst, ℕ, ◌+◌, ◌-◌, ◌≤◌, ◌≡◌, refl, sym, ap, ◌∙◌, Bool, false, not, some, List, [], ◌∷◌, ◌++◌,
  arith, ltb, length, length-append, is_empty, map_or, take, drop, append_assoc, append_nil, All,
  append-All, u32_max, u64_max, saturating_add_u64, Result, ok, err,
}
use insider_trader.Journal.{
  JournalRecord, Scan, JournalError, torn, whole, Journal, max_journal_bytes, header, frame,
  read_frame, scan_also, scan_end, scan_from, scan_path, last, next_after, io, written,
  write_failed, write_frame, append,
}
use insider_trader.Journal.Frame.{IsEncodable, read_frame-frame}

unfoldable pub frames : List JournalRecord → List ℕ
frames [] = []
frames (r ∷ rs) = frame r.sequence r.payload ++ frames rs

-- A journal whose file holds exactly the frames of some records.
pub record IsLog (j : Journal) (records : List JournalRecord) : Type 0 where
  pub contents : j.bytes ≡ frames records
  pub encodable : All IsEncodable records
  pub next : j.next_sequence ≡ next_after records
  pub small : length j.bytes ≤ max_journal_bytes

scan_from-skip :
    (xs ys : List ℕ) (offset : ℕ)
    → scan_from (length xs) offset (xs ++ ys) ≡ scan_from 0 (offset + length xs) ys
unfolding scan_from
scan_from-skip [] ys offset = ap (λ o. scan_from 0 o ys) (omega arith)
scan_from-skip (x ∷ xs) ys offset =
    scan_from-skip xs ys (offset + 1) ∙ ap (λ o. scan_from 0 o ys) (omega arith)

-- A frame begins with a byte of its own.
frame_starts : (s : ℕ) (p : List ℕ) → frame s p ≡ 73 ∷ drop 1 (frame s p)
unfolding frame header
frame_starts s p = refl

scan_whole :
    (b : ℕ) (t rest : List ℕ) (offset : ℕ) (r : JournalRecord)
    → read_frame ((b ∷ t) ++ rest) ≡ whole r (length (b ∷ t))
    → scan_from 0 offset ((b ∷ t) ++ rest)
      ≡ scan_also r (scan_from 0 (offset + length (b ∷ t)) rest)
unfolding scan_from
scan_whole b t rest offset r h =
    let left : length (b ∷ t) - 1 ≡ length t = omega arith in
    let next : scan_from (length (b ∷ t) - 1) (offset + 1) (t ++ rest)
        ≡ scan_from 0 (offset + length (b ∷ t)) rest =
      ap (λ k. scan_from k (offset + 1) (t ++ rest)) left
      ∙ scan_from-skip t rest (offset + 1)
      ∙ ap (λ o. scan_from 0 o rest) (omega arith) in
    rw (h, next, scan_from) refl

scan_from-frame :
    (s : ℕ) (p rest : List ℕ) (offset : ℕ)
    → s ≤ u64_max
    → length p ≤ u32_max
    → scan_from 0 offset (frame s p ++ rest)
      ≡ scan_also
          (record { sequence = s; payload = p })
          (scan_from 0 (offset + length (frame s p)) rest)
scan_from-frame s p rest offset hs hp =
    let r : JournalRecord = record { sequence = s; payload = p } in
    let t = drop 1 (frame s p) in
    let e = frame_starts s p in
    subst (λ l. scan_from 0 offset (l ++ rest) ≡ scan_also r (scan_from 0 (offset + length l) rest))
      (sym e)
      (scan_whole 73 t rest offset r (
        subst (λ l. read_frame (l ++ rest) ≡ whole r (length l)) e
          (read_frame-frame s p rest hs hp)))

scan_all : List JournalRecord → Result JournalError Scan → Result JournalError Scan
scan_all [] out = out
scan_all (r ∷ rs) out = scan_also r (scan_all rs out)

scan_from-frames :
    (rs : List JournalRecord) (rest : List ℕ) (offset : ℕ)
    → All IsEncodable rs
    → scan_from 0 offset (frames rs ++ rest)
      ≡ scan_all rs (scan_from 0 (offset + length (frames rs)) rest)
unfolding frames scan_all
scan_from-frames [] rest offset h = ap (λ o. scan_from 0 o rest) (omega arith)
scan_from-frames (r ∷ rs) rest offset (h, hs) =
    let this = frame r.sequence r.payload in
    ap (scan_from 0 offset) (append_assoc this (frames rs) rest)
    ∙ scan_from-frame r.sequence r.payload (frames rs ++ rest) offset h.number h.size
    ∙ ap (scan_also r) (
        scan_from-frames rs rest (offset + length this) hs
        ∙ ap (λ o. scan_all rs (scan_from 0 o rest))
            (omega (arith, length-append this (frames rs))))

scan_all-end :
    (rs : List JournalRecord) (offset : ℕ) (tail : Bool)
    → scan_all rs (scan_end offset tail)
      ≡ ok (record { records = rs; valid_bytes = offset; has_invalid_tail = tail })
unfolding scan_all
scan_all-end [] offset tail = refl
scan_all-end (r ∷ rs) offset tail = ap (scan_also r) (scan_all-end rs offset tail)

scan_torn :
    (rest : List ℕ) (offset : ℕ)
    → (is_empty rest ≡ false → read_frame rest ≡ torn)
    → scan_from 0 offset rest ≡ scan_end offset (not (is_empty rest))
unfolding scan_from
scan_torn [] offset h = refl
scan_torn (b ∷ bs) offset h = rw (h refl, scan_from) refl

-- The scan of the frames of some records and what follows them, where that is no frame.
pub scan_path-frames :
    (rs : List JournalRecord) (rest : List ℕ)
    → All IsEncodable rs
    → (is_empty rest ≡ false → read_frame rest ≡ torn)
    → length (frames rs ++ rest) ≤ max_journal_bytes
    → scan_path (some (frames rs ++ rest))
      ≡ ok (record {
        records = rs;
        valid_bytes = length (frames rs);
        has_invalid_tail = not (is_empty rest);
      })
unfolding scan_path
scan_path-frames rs rest h t small =
    let fits : ltb max_journal_bytes (length (frames rs ++ rest)) ≡ false = ground (arith, small) in
    rw fits (
      scan_from-frames rs rest 0 h
      ∙ ap (scan_all rs) (scan_torn rest (0 + length (frames rs)) t)
      ∙ scan_all-end rs (0 + length (frames rs)) (not (is_empty rest))
      ∙ ap
          (λ o.
            ok (record { records = rs; valid_bytes = o; has_invalid_tail = not (is_empty rest) }))
          (omega arith))

last-append : (rs : List JournalRecord) (r : JournalRecord) → last (rs ++ (r ∷ [])) ≡ some r
last-append [] r = refl
last-append (x ∷ []) r = refl
last-append (x ∷ y ∷ rs) r = last-append (y ∷ rs) r

frames-append :
    (rs : List JournalRecord) (r : JournalRecord)
    → frames (rs ++ (r ∷ [])) ≡ frames rs ++ frame r.sequence r.payload
unfolding frames
frames-append [] r = append_nil (frame r.sequence r.payload)
frames-append (x ∷ rs) r =
    ap (λ l. frame x.sequence x.payload ++ l) (frames-append rs r)
    ∙ sym (append_assoc (frame x.sequence x.payload) (frames rs) (frame r.sequence r.payload))

pub next_after-small : (rs : List JournalRecord) → next_after rs ≤ u64_max
next_after-small rs = ground arith

pub scan_path-log :
    (j : Journal) (rs : List JournalRecord)
    → j.bytes ≡ frames rs
    → All IsEncodable rs
    → length j.bytes ≤ max_journal_bytes
    → scan_path (some j.bytes)
      ≡ ok (record { records = rs; valid_bytes = length j.bytes; has_invalid_tail = false })
scan_path-log j rs holds all bound =
    let whole_file : frames rs ++ [] ≡ j.bytes = append_nil (frames rs) ∙ sym holds in
    ap (λ l. scan_path (some l)) (sym whole_file)
    ∙ scan_path-frames rs [] all (λ e. cc) (omega (arith, ap length whole_file, bound))
    ∙ ap (λ o. ok (record { records = rs; valid_bytes = o; has_invalid_tail = false }))
        (sym (ap length holds))

-- What an append that reaches the file has passed.
pub record Passes (j : Journal) (payload : List ℕ) : Type 0 where
  pub size : length payload ≤ u32_max
  pub room : length j.bytes + length (frame j.next_sequence payload) ≤ max_journal_bytes

pub append_ok :
    (j k : Journal) (payload : List ℕ) (s : ℕ)
    → append j payload written ≡ (ok s, k)
    → Passes j payload × ((ok s, k) ≡ write_frame j (frame j.next_sequence payload) written)
unfolding append
append_ok j k payload s h =
    (record { size = ground (arith, h); room = ground (arith, h) }, ground (arith, h))

pub append_failed :
    (j k : Journal) (payload : List ℕ) (n : ℕ)
    → append j payload (write_failed n) ≡ (err io, k)
    → Passes j payload
      × (k ≡ record j { bytes = j.bytes ++ take n (frame j.next_sequence payload) })
unfolding append
append_failed j k payload n h =
    (record { size = ground (arith, h); room = ground (arith, h) }, ground (arith, h))

-- An append to a journal that holds some records gives out its next number and leaves a journal
-- that holds the records and the new one, which the scan finds with no invalid tail.
pub append-IsLog :
    (j k : Journal) (rs : List JournalRecord) (payload : List ℕ) (s : ℕ)
    → IsLog j rs
    → append j payload written ≡ (ok s, k)
    → let now = rs ++ (record { sequence = j.next_sequence; payload = payload } ∷ []) in
      (s ≡ j.next_sequence)
      × IsLog k now
      × (scan_path (some k.bytes)
          ≡ ok (record { records = now; valid_bytes = length k.bytes; has_invalid_tail = false }))
append-IsLog j k rs payload s log h =
    let r : JournalRecord = record { sequence = j.next_sequence; payload = payload } in
    let (passes, same) = append_ok j k payload s h in
    let fresh : IsEncodable r = record {
      number = omega (arith, log.next, next_after-small rs);
      size = passes.size;
    } in
    let same_k : k.bytes ≡ j.bytes ++ frame j.next_sequence payload = ap (λ o. o.1.bytes) same in
    let holds : k.bytes ≡ frames (rs ++ (r ∷ [])) =
      same_k
      ∙ ap (λ l. l ++ frame j.next_sequence payload) log.contents
      ∙ sym (frames-append rs r) in
    let bound : length k.bytes ≤ max_journal_bytes = omega (
      arith,
      passes.room,
      ap length same_k,
      length-append j.bytes (frame j.next_sequence payload),
    ) in
    let all = append-All IsEncodable rs (r ∷ []) log.encodable (fresh, tt) in
    (
      ground (arith, same),
      record {
        contents = holds;
        encodable = all;
        next =
            ap (λ o. o.1.next_sequence) same
            ∙ sym (ap (λ o. map_or o 0 (λ x. saturating_add_u64 x.sequence 1)) (last-append rs r));
        small = bound;
      },
      scan_path-log k (rs ++ (r ∷ [])) holds all bound,
    )
