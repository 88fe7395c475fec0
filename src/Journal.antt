-- ===== src/Journal.antt =====
-- crates/journal/src/lib.rs: the frames of the journal, its scan, its recovery and its append. A byte
-- is a number below 256, and the file of a journal is the list of its bytes.
pub mod Frame
pub mod Log
pub mod Crash
pub mod Digest
pub mod Seal
use Prim.Native.Nat.{bit_and, bit_xor}
use insider_trader.Prelude.{
  ℕ, zero, suc, ◌+◌, ◌-◌, ◌/◌, Bool, true, false, Option, none, some, List, [], ◌∷◌, ◌++◌, ltb,
  ◌==◌, if◌then◌else◌, ◌||◌, not, length, map_or, u32_max, u64_max, saturating_add_u64, add_u64,
  take, drop, to_le, from_le, Text, codes, Result, ok, err, ok_or, fail_if, ◌>>=◌, ◌>>◌,
}

-- `Record`, and `Scan`.
pub record JournalRecord : Type 0 where
  pub sequence : ℕ
  pub payload : List ℕ

pub record Scan : Type 0 where
  pub records : List JournalRecord
  pub valid_bytes : ℕ
  pub has_invalid_tail : Bool

-- The errors of the modelled calls; the cause of an I/O error and the paths are left out.
pub data JournalError : Type 0 where
  io seal_mismatch backup_exists : JournalError
  corrupt : ℕ → Text → JournalError
  payload_too_large bounds_exceeded : ℕ → JournalError

abbrev pub magic : List ℕ
magic = 73 ∷ 84 ∷ 74 ∷ 82 ∷ []

abbrev pub header_len : ℕ
header_len = 18

abbrev pub trailer_len : ℕ
trailer_len = 4

abbrev pub max_journal_bytes : ℕ
max_journal_bytes = 536_870_912

-- One bit of the checksum, so many times.
unfoldable pub crc_bits : ℕ → ℕ → ℕ
crc_bits zero crc = crc
crc_bits (suc n) crc =
    crc_bits n (if bit_and crc 1 == 1 then bit_xor (crc / 2) 0x82f63b78 else crc / 2)

unfoldable pub crc_bytes : ℕ → List ℕ → ℕ
crc_bytes crc [] = crc
crc_bytes crc (b ∷ bs) = crc_bytes (crc_bits 8 (bit_xor crc b)) bs

-- `!` of 32 bits is the difference from the greatest value.
unfoldable pub crc32c : List ℕ → ℕ
crc32c bytes = u32_max - crc_bytes u32_max bytes

unfoldable pub header : ℕ → ℕ → List ℕ
header sequence payload_len = magic ++ (to_le 2 1 ++ (to_le 8 sequence ++ to_le 4 payload_len))

-- The frame that `append` writes.
unfoldable pub frame : ℕ → List ℕ → List ℕ
frame sequence payload =
    let body = header sequence (length payload) ++ payload in body ++ to_le 4 (crc32c body)

-- What stands at an offset: no whole frame, one of another version, or a frame and its length.
pub data Reading : Type 0 where
  torn unsupported : Reading
  whole : JournalRecord → ℕ → Reading

abbrev pub bytes_eq : List ℕ → List ℕ → Bool
bytes_eq [] [] = true
bytes_eq (x ∷ xs) (y ∷ ys) = if x == y then bytes_eq xs ys else false
bytes_eq _ _ = false

-- The rest of a frame whose header has been read.
unfoldable pub read_body : List ℕ → ℕ → ℕ → Reading
read_body rest sequence len =
    if ltb (length rest) (header_len + len + trailer_len)
    then torn
    else if not (
        crc32c (take (header_len + len) rest)
        == from_le (take trailer_len (drop (header_len + len) rest)))
    then torn
    else whole (record { sequence = sequence; payload = take len (drop header_len rest) })
        (header_len + len + trailer_len)

-- `rest` is the bytes from the offset on.
unfoldable pub read_frame : List ℕ → Reading
read_frame rest =
    if ltb (length rest) header_len || not (bytes_eq (take 4 rest) magic)
    then torn
    else if not (from_le (take 2 (drop 4 rest)) == 1)
    then unsupported
    else read_body rest (from_le (take 8 (drop 6 rest))) (from_le (take 4 (drop 14 rest)))

abbrev pub scan_also : JournalRecord → Result JournalError Scan → Result JournalError Scan
scan_also r (ok scan) = ok (record scan { records = r ∷ scan.records })
scan_also r (err e) = err e

abbrev pub scan_end : ℕ → Bool → Result JournalError Scan
scan_end offset tail = ok (record { records = []; valid_bytes = offset; has_invalid_tail = tail })

-- The loop over the frames: so many bytes are left to the next frame, which is read where it starts.
unfoldable pub scan_from : ℕ → ℕ → List ℕ → Result JournalError Scan
scan_from left offset [] = scan_end offset false
scan_from (suc left) offset (b ∷ bs) = scan_from left (offset + 1) bs
scan_from zero offset (b ∷ bs) = elim (read_frame (b ∷ bs)) [
  | torn ↦ scan_end offset true
  | unsupported ↦ err (corrupt offset (codes "unsupported journal version"))
  | whole r frame_len ↦ scan_also r (scan_from (frame_len - 1) (offset + 1) bs)
]

-- `scan_path`, of the bytes of the file where there is one.
unfoldable pub scan_path : Option (List ℕ) → Result JournalError Scan
scan_path none = scan_end 0 false
scan_path (some bytes) =
    if ltb max_journal_bytes (length bytes)
    then err (bounds_exceeded (length bytes))
    else scan_from 0 0 bytes

pub record Journal : Type 0 where
  pub bytes : List ℕ
  pub next_sequence : ℕ

abbrev pub last : List JournalRecord → Option JournalRecord
last [] = none
last (r ∷ []) = some r
last (r ∷ s ∷ rs) = last (s ∷ rs)

abbrev pub next_after : List JournalRecord → ℕ
next_after records = map_or (last records) 0 (λ r. saturating_add_u64 r.sequence 1)

abbrev pub bytes_of : Option (List ℕ) → List ℕ
bytes_of none = []
bytes_of (some bytes) = bytes

-- `Journal::open`; the calls of the file system succeed.
unfoldable pub open_journal : Option (List ℕ) → Result JournalError Journal
open_journal file = do
  scan ← scan_path file
  ok (record {
    bytes = if scan.has_invalid_tail then take scan.valid_bytes (bytes_of file) else bytes_of file;
    next_sequence = next_after scan.records;
  })

-- How the file system answers an append: the frame is written and synced, only its first bytes
-- reach the file, or it is written and not synced.
pub data Write : Type 0 where
  written : Write
  write_failed : ℕ → Write
  sync_failed : Write

abbrev pub write_frame : Journal → List ℕ → Write → Result JournalError ℕ × Journal
write_frame j bytes written = (
  ok j.next_sequence,
  record { bytes = j.bytes ++ bytes; next_sequence = saturating_add_u64 j.next_sequence 1 },
)
write_frame j bytes (write_failed n) = (err io, record j { bytes = j.bytes ++ take n bytes })
write_frame j bytes sync_failed = (err io, record j { bytes = j.bytes ++ bytes })

unfoldable pub append : Journal → List ℕ → Write → Result JournalError ℕ × Journal
append j payload write =
    if ltb u32_max (length payload)
    then (err (payload_too_large (length payload)), j)
    else let bytes = frame j.next_sequence payload in
      let projected = length j.bytes + length bytes in
      if ltb u64_max projected
      then (err (bounds_exceeded u64_max), j)
      else if ltb max_journal_bytes projected
      then (err (bounds_exceeded projected), j)
      else write_frame j bytes write
