-- ===== src/Tests/Files.antt =====
-- Journals, torn frames, digests and backups.
use insider_trader.Prelude.{
  ◌≡◌, refl, ℕ, ◌<◌, true, false, none, some, List, [], ◌∷◌, ◌++◌, arith, length, codes, take, ok,
  err, to_le,
}
use insider_trader.Journal.{
  JournalRecord, Journal, Scan, io, frame, header, crc32c, crc_bytes, crc_bits, scan_path,
  open_journal, append, written, write_failed,
}
use insider_trader.Journal.Log.{frames, IsLog, append-IsLog}
use insider_trader.Journal.Crash.{open_journal-append, append_lost}
use insider_trader.Journal.Digest.{
  sha256, padded, push_zeros, to_be, compress_all, compress, more_words, rounds, output,
}
use insider_trader.Journal.Seal.{Stored, manifest_of, published, backup_to, restore_backup}
use insider_trader.Journal.Seal.Backup.{
  vacant, IsSealed, restore_backup-log, restore_backup-backup_to, restore_backup-IsSound,
}

abbrev empty_journal : Journal
empty_journal = record { bytes = []; next_sequence = 0 }

abbrev first_payload : List ℕ
first_payload = 104 ∷ 105 ∷ []

abbrev first_record : JournalRecord
first_record = record { sequence = 0; payload = first_payload }

abbrev one_record : Journal
one_record = record { bytes = frame 0 first_payload; next_sequence = 1 }

empty-IsLog : IsLog empty_journal []
unfolding frames
empty-IsLog = record { contents = refl; encodable = tt; next = refl; small = omega arith }

-- The checksum of "123456789" is the one that the polynomial is known by.
crc32c_check : crc32c (49 ∷ 50 ∷ 51 ∷ 52 ∷ 53 ∷ 54 ∷ 55 ∷ 56 ∷ 57 ∷ []) ≡ 0xe3069283
unfolding crc32c crc_bytes crc_bits
crc32c_check = refl

sha256_abc : take 4 (sha256 (97 ∷ 98 ∷ 99 ∷ [])) ≡ 0xba ∷ 0x78 ∷ 0x16 ∷ 0xbf ∷ []
unfolding sha256 padded push_zeros to_be compress_all compress more_words rounds output
sha256_abc = refl

first_append : append empty_journal first_payload written ≡ (ok 0, one_record)
unfolding append frame header crc32c crc_bytes crc_bits to_le
first_append = refl

append-IsLog_example :
    (first_record.sequence ≡ empty_journal.next_sequence)
    × IsLog one_record (first_record ∷ [])
    × (scan_path (some one_record.bytes)
        ≡ ok (record {
          records = first_record ∷ [];
          valid_bytes = length one_record.bytes;
          has_invalid_tail = false;
        }))
append-IsLog_example =
    append-IsLog empty_journal one_record [] first_payload 0 empty-IsLog first_append

one-IsLog : IsLog one_record (first_record ∷ [])
one-IsLog = (append-IsLog empty_journal one_record [] first_payload 0 empty-IsLog first_append).1

-- Three bytes of a frame reach the file.
abbrev torn_journal : Journal
torn_journal = record { bytes = one_record.bytes ++ take 3 (frame 1 (7 ∷ [])); next_sequence = 1 }

abbrev used_journal : Journal
used_journal = record { bytes = torn_journal.bytes ++ frame 1 (9 ∷ []); next_sequence = 2 }

torn_append : append one_record (7 ∷ []) (write_failed 3) ≡ (err io, torn_journal)
unfolding append frame header crc32c crc_bytes crc_bits to_le
torn_append = refl

used_append : append torn_journal (9 ∷ []) written ≡ (ok 1, used_journal)
unfolding append frame header crc32c crc_bytes crc_bits to_le
used_append = refl

part_of_frame : 3 < length (frame 1 (7 ∷ []))
unfolding frame header crc32c crc_bytes crc_bits to_le
part_of_frame = omega arith

open_journal-append_example :
    (open_journal (some torn_journal.bytes) ≡ ok one_record)
    × (torn_journal.next_sequence ≡ one_record.next_sequence)
open_journal-append_example =
    open_journal-append one_record torn_journal (first_record ∷ []) (7 ∷ []) 3 one-IsLog
      part_of_frame torn_append

append_lost_example :
    scan_path (some used_journal.bytes)
    ≡ ok (record {
      records = first_record ∷ [];
      valid_bytes = length one_record.bytes;
      has_invalid_tail = true;
    })
append_lost_example =
    append_lost one_record torn_journal used_journal (first_record ∷ []) (7 ∷ []) (9 ∷ []) 3 1
      one-IsLog (omega arith) (omega arith) torn_append used_append

restore_backup-backup_to_example :
    let journal : Stored = record {
      path = codes "a";
      file = some one_record.bytes;
      sidecar = none;
    } in
    let saved = backup_to journal (vacant (codes "b") none) in
    let restored = restore_backup saved.1 (vacant (codes "c") none) in
    (saved.0
      ≡ ok (record {
        source = codes "a";
        destination = codes "b";
        byte_len = length one_record.bytes;
        digest = sha256 one_record.bytes;
      }))
    × (restored.0
        ≡ ok (record {
          source = codes "b";
          destination = codes "c";
          byte_len = length one_record.bytes;
          digest = sha256 one_record.bytes;
        }))
    × (open_journal restored.1.file ≡ ok one_record)
restore_backup-backup_to_example =
    restore_backup-backup_to (codes "a") (codes "b") (codes "c") one_record (first_record ∷ []) none
      none none one-IsLog

abbrev sealed : Stored
sealed = published (codes "b") one_record.bytes

restored : restore_backup sealed (vacant (codes "c") none) ≡ (
  ok (manifest_of (codes "b") (codes "c") one_record.bytes),
  published (codes "c") one_record.bytes,
)
restored = restore_backup-log (codes "b") (codes "c") one_record (first_record ∷ []) none one-IsLog

restore_backup-IsSound_example :
    (bytes : List ℕ) × ((vacant (codes "c") none).file ≡ none)
    × IsSealed sealed bytes
    × ((scan : Scan) × (scan_path (some bytes) ≡ ok scan) × (scan.has_invalid_tail ≡ false))
    × (published (codes "c") one_record.bytes ≡ published (codes "c") bytes)
    × (manifest_of (codes "b") (codes "c") one_record.bytes
        ≡ manifest_of (codes "b") (codes "c") bytes)
restore_backup-IsSound_example =
    restore_backup-IsSound sealed (vacant (codes "c") none) (published (codes "c") one_record.bytes)
      (manifest_of (codes "b") (codes "c") one_record.bytes) restored
