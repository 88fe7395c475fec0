-- ===== src/Journal/Seal.antt =====
-- The seals and the backups of crates/journal/src/lib.rs. The calls of the file system succeed, but
-- for those that open a file that is not there, and no temporary file is in the way.
pub mod RoundTrip
pub mod Backup
use insider_trader.Prelude.{
  ℕ, zero, suc, ◌+◌, ◌-◌, ◌*◌, Bool, true, false, ◌&&◌, ◌||◌, not, Option, none, some, List, [],
  ◌∷◌, ◌++◌, ltb, leb, ◌==◌, if◌then◌else◌, length, all, is_some, is_empty, and_then, Text, codes,
  is_whitespace, Result, ok, err, ok_or, fail_if, ◌>>=◌, ◌>>◌,
}
use insider_trader.Ids.{hex, from_hex, utf8_length}
use insider_trader.Journal.{
  JournalError, io, seal_mismatch, backup_exists, corrupt, bounds_exceeded, max_journal_bytes,
  bytes_eq, Scan, scan_path,
}
use insider_trader.Journal.Digest.{sha256}

-- What a file holds that is read as text: UTF-8, or a number of bytes that are not.
pub data Contents : Type 0 where
  utf8 : Text → Contents
  not_utf8 : ℕ → Contents

-- A path, the file there, and the sidecar that belongs to it.
pub record Stored : Type 0 where
  pub path : Text
  pub file : Option (List ℕ)
  pub sidecar : Option Contents

pub record BackupManifest : Type 0 where
  pub source : Text
  pub destination : Text
  pub byte_len : ℕ
  pub digest : List ℕ

abbrev pub max_seal_bytes : ℕ
max_seal_bytes = 256

unfoldable pub hex_digest : List ℕ → Text
hex_digest [] = []
hex_digest (b ∷ bs) = hex 2 b ++ hex_digest bs

abbrev pub is_hexdigit : ℕ → Bool
is_hexdigit c = (leb 48 c && ltb c 58) || (leb 97 c && ltb c 103) || (leb 65 c && ltb c 71)

-- The bytes that the pairs of digits are; the text has an even length.
unfoldable pub parse_pairs : Text → Option (List ℕ)
parse_pairs [] = some []
parse_pairs (c ∷ []) = none
parse_pairs (c ∷ d ∷ cs) =
    and_then (from_hex (c ∷ d ∷ [])) λ b. and_then (parse_pairs cs) λ bs. some (b ∷ bs)

unfoldable pub parse_hex_digest : Text → Option (List ℕ)
parse_hex_digest value =
    if not (utf8_length value == 64) || not (all is_hexdigit value) then none else parse_pairs value

-- `str::trim`.
unfoldable pub trim_start : Text → Text
trim_start [] = []
trim_start (c ∷ cs) = let rest = trim_start cs in if is_whitespace c then rest else c ∷ cs

unfoldable pub trim_end : Text → Text
trim_end [] = []
trim_end (c ∷ cs) =
    let rest = trim_end cs in if is_empty rest && is_whitespace c then [] else c ∷ rest

abbrev pub trim : Text → Text
trim s = trim_end (trim_start s)

unfoldable pub read_journal_bytes : Option (List ℕ) → Result JournalError (List ℕ)
read_journal_bytes none = err io
read_journal_bytes (some bytes) =
    if ltb max_journal_bytes (length bytes) then err (bounds_exceeded (length bytes)) else ok bytes

-- At most one byte more than the bound is read.
abbrev pub byte_length : Contents → ℕ
byte_length (utf8 text) = utf8_length text
byte_length (not_utf8 n) = n

-- `String::from_utf8`.
abbrev pub from_utf8 : Contents → Result JournalError Text
from_utf8 (utf8 text) = ok text
from_utf8 (not_utf8 n) = err seal_mismatch

unfoldable pub read_seal_text : Option Contents → Result JournalError Text
read_seal_text none = err io
read_seal_text (some contents) =
    if ltb max_seal_bytes (byte_length contents)
    then err (bounds_exceeded (max_seal_bytes + 1))
    else from_utf8 contents

-- The text that `seal` and `publish_digest` write.
abbrev pub seal_text : List ℕ → Text
seal_text digest = hex_digest digest ++ (10 ∷ [])

unfoldable pub seal : Stored → Result JournalError (List ℕ) × Stored
seal s = elim (read_journal_bytes s.file) [
  | err e ↦ (err e, s)
  | ok bytes ↦ (ok (sha256 bytes), record s { sidecar = some (utf8 (seal_text (sha256 bytes))) })
]

unfoldable pub verify_seal : Stored → Result JournalError (List ℕ)
verify_seal s = do
  encoded ← read_seal_text s.sidecar
  expected ← ok_or (parse_hex_digest (trim encoded)) seal_mismatch
  bytes ← read_journal_bytes s.file
  fail_if (not (bytes_eq expected (sha256 bytes))) seal_mismatch
  ok (sha256 bytes)

abbrev pub manifest_of : Text → Text → List ℕ → BackupManifest
manifest_of source destination bytes = record {
  source = source;
  destination = destination;
  byte_len = length bytes;
  digest = sha256 bytes;
}

-- What stands at a path when the bytes and their digest are published.
abbrev pub published : Text → List ℕ → Stored
published path bytes = record {
  path = path;
  file = some bytes;
  sidecar = some (utf8 (seal_text (sha256 bytes)));
}

unfoldable pub backup_to : Stored → Stored → Result JournalError BackupManifest × Stored
backup_to s destination =
    if is_some destination.file
    then (err backup_exists, destination)
    else elim (read_journal_bytes s.file) [
      | err e ↦ (err e, destination)
      | ok bytes ↦
          (ok (manifest_of s.path destination.path bytes), published destination.path bytes)
    ]

-- The digest that the text of a sidecar is, where it can be read.
abbrev pub expected_digest : Result JournalError Text → Option (List ℕ)
expected_digest (err e) = none
expected_digest (ok value) = parse_hex_digest (trim value)

-- The source as far as it is read before anything is written.
unfoldable pub verified_source : Stored → Result JournalError (List ℕ)
verified_source source = do
  expected ← ok_or (expected_digest (read_seal_text source.sidecar)) seal_mismatch
  bytes ← read_journal_bytes source.file
  fail_if (not (bytes_eq (sha256 bytes) expected)) seal_mismatch
  ok bytes

-- The rest of `restore_backup`: the copy is published, scanned and, with an invalid tail, removed.
abbrev pub publish_restored :
    Text → List ℕ → Stored → Result JournalError Scan → Result JournalError BackupManifest × Stored
publish_restored source bytes destination (err e) =
    (err e, record destination { file = some bytes })
publish_restored source bytes destination (ok scan) =
    if scan.has_invalid_tail
    then (err (corrupt 0 (codes "backup contains an invalid tail")), destination)
    else (ok (manifest_of source destination.path bytes), published destination.path bytes)

unfoldable pub restore_backup : Stored → Stored → Result JournalError BackupManifest × Stored
restore_backup source destination =
    if is_some destination.file
    then (err backup_exists, destination)
    else elim (verified_source source) [
      | err e ↦ (err e, destination)
      | ok bytes ↦ publish_restored source.path bytes destination (scan_path (some bytes))
    ]
