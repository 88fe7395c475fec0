-- ===== src/Journal/Seal/Backup.antt =====
-- The backups of crates/journal/src/lib.rs: what is restored, and what is refused.
use insider_trader.Prelude.{
  ℕ, ◌≤◌, ◌≡◌, refl, sym, ap, ◌∙◌, arith, false, not, Bool-cases, inl, inr, Option, none, some,
  List, length, Text, Result, ok, err, >>=-eq-ok, ok_or-eq-ok, fail_if-eq-ok, Result-cases,
  Option-cases,
}
use insider_trader.Journal.{
  JournalError, Journal, JournalRecord, max_journal_bytes, bytes_eq, Scan, scan_path, seal_mismatch,
  open_journal,
}
use insider_trader.Journal.Log.{IsLog, scan_path-log}
use insider_trader.Journal.Digest.{sha256}
use insider_trader.Journal.Seal.{
  Contents, Stored, BackupManifest, trim, parse_hex_digest, read_journal_bytes, read_seal_text,
  manifest_of, published, backup_to, expected_digest, verified_source, publish_restored,
  restore_backup,
}
use insider_trader.Journal.Seal.RoundTrip.{
  bytes_eq_iff, read_journal_bytes-small, verified_source-published,
}

-- A path at which there is no file; its sidecar may be there.
abbrev pub vacant : Text → Option Contents → Stored
vacant path sidecar = record { path = path; file = none; sidecar = sidecar }

backup_to-small :
    (here there : Text) (bytes : List ℕ) (old left : Option Contents)
    → length bytes ≤ max_journal_bytes
    → backup_to (record { path = here; file = some bytes; sidecar = old }) (vacant there left)
      ≡ (ok (manifest_of here there bytes), published there bytes)
unfolding backup_to
backup_to-small here there bytes old left h = rw (read_journal_bytes-small bytes h, backup_to) refl

restore_backup-published :
    (there last : Text) (bytes : List ℕ) (left : Option Contents)
    → length bytes ≤ max_journal_bytes
    → restore_backup (published there bytes) (vacant last left)
      ≡ publish_restored there bytes (vacant last left) (scan_path (some bytes))
unfolding restore_backup
restore_backup-published there last bytes left h =
    rw (verified_source-published there bytes h, restore_backup) refl

open_journal-log :
    (j : Journal) (rs : List JournalRecord) → IsLog j rs → open_journal (some j.bytes) ≡ ok j
unfolding open_journal
open_journal-log j rs log =
    rw (scan_path-log j rs log.contents log.encodable log.small, open_journal)
      (ap (λ n. ok (record { bytes = j.bytes; next_sequence = n })) (sym log.next))

pub restore_backup-log :
    (there last : Text) (j : Journal) (rs : List JournalRecord) (left : Option Contents)
    → IsLog j rs
    → restore_backup (published there j.bytes) (vacant last left)
      ≡ (ok (manifest_of there last j.bytes), published last j.bytes)
restore_backup-log there last j rs left log =
    restore_backup-published there last j.bytes left log.small
    ∙ ap (publish_restored there j.bytes (vacant last left))
        (scan_path-log j rs log.contents log.encodable log.small)

-- A journal that holds some records is copied from its path to a free one and restored from there
-- to another free one: both calls succeed, with manifests that have the length and the digest of the
-- journal's bytes and each its own source and destination, and opening what was restored gives the
-- journal.
pub restore_backup-backup_to :
    (here there last : Text) (j : Journal) (rs : List JournalRecord)
    (old copy target : Option Contents)
    → IsLog j rs
    → let journal : Stored = record { path = here; file = some j.bytes; sidecar = old } in
      let saved = backup_to journal (vacant there copy) in
      let restored = restore_backup saved.1 (vacant last target) in
      (saved.0
        ≡ ok (record {
          source = here;
          destination = there;
          byte_len = length j.bytes;
          digest = sha256 j.bytes;
        }))
      × (restored.0
          ≡ ok (record {
            source = there;
            destination = last;
            byte_len = length j.bytes;
            digest = sha256 j.bytes;
          }))
      × (open_journal restored.1.file ≡ ok j)
restore_backup-backup_to here there last j rs old copy target log =
    let saved = backup_to-small here there j.bytes old copy log.small in
    let all =
      ap (λ s. restore_backup s.1 (vacant last target)) saved
      ∙ restore_backup-log there last j rs target log in
    (
      ap (λ s. s.0) saved,
      ap (λ s. s.0) all,
      ap (λ s. open_journal s.1.file) all ∙ open_journal-log j rs log,
    )

expected_digest-eq-some :
    (r : Result JournalError Text) (d : List ℕ)
    → expected_digest r ≡ some d
    → (text : Text) × (r ≡ ok text) × (parse_hex_digest (trim text) ≡ some d)
expected_digest-eq-some (err e) d h = cc
expected_digest-eq-some (ok text) d h = (text, refl, h)

-- A source whose digest is the one of its sidecar.
pub record IsSealed (source : Stored) (bytes : List ℕ) : Type 0 where
  pub readable : read_journal_bytes source.file ≡ ok bytes
  pub sealed :
      (text : Text) × (read_seal_text source.sidecar ≡ ok text)
      × (parse_hex_digest (trim text) ≡ some (sha256 bytes))

verified_source-IsSealed :
    (source : Stored) (bytes : List ℕ) → verified_source source ≡ ok bytes → IsSealed source bytes
unfolding verified_source
verified_source-IsSealed source bytes h =
    let (expected, parsed, rest) =
      ok_or-eq-ok (expected_digest (read_seal_text source.sidecar)) seal_mismatch _ h in
    let (found, readable, checked) = >>=-eq-ok (read_journal_bytes source.file) _ rest in
    let (same, out) =
      fail_if-eq-ok (not (bytes_eq (sha256 found) expected)) seal_mismatch (ok found) checked in
    let this : found ≡ bytes = cc in
    let agree : sha256 bytes ≡ expected =
      ap sha256 (sym this) ∙ (bytes_eq_iff (sha256 found) expected).0 (ground (arith, same)) in
    record {
      readable = readable ∙ out;
      sealed =
          expected_digest-eq-some (read_seal_text source.sidecar) (sha256 bytes)
            (parsed ∙ ap some (sym agree));
    }

publish_restored-eq-ok :
    (source : Text) (bytes : List ℕ) (destination after : Stored) (m : BackupManifest)
    (r : Result JournalError Scan)
    → publish_restored source bytes destination r ≡ (ok m, after)
    → ((scan : Scan) × (r ≡ ok scan) × (scan.has_invalid_tail ≡ false))
      × (after ≡ published destination.path bytes)
      × (m ≡ manifest_of source destination.path bytes)
publish_restored-eq-ok source bytes destination after m (err e) h = cc
publish_restored-eq-ok source bytes destination after m (ok scan) h =
    elim (Bool-cases scan.has_invalid_tail) [
      | inl bad ↦ absurd (ground (arith, h, bad))
      | inr good ↦ ((scan, refl, good), ground (arith, h, good), ground (arith, h, good))
    ]

restore_backup-eq-ok :
    (source destination after : Stored) (m : BackupManifest)
    → restore_backup source destination ≡ (ok m, after)
    → (destination.file ≡ none)
      × ((bytes : List ℕ) × (verified_source source ≡ ok bytes)
          × (publish_restored source.path bytes destination (scan_path (some bytes))
              ≡ (ok m, after)))
unfolding restore_backup
restore_backup-eq-ok source destination after m h = elim (Option-cases destination.file) [
  | inr (old, e) ↦ absurd (ground (arith, h, e))
  | inl free ↦ elim (Result-cases (verified_source source)) [
    | inl (e, bad) ↦ absurd (ground (arith, h, free, bad))
    | inr (bytes, good) ↦ (free, (bytes, good, ground (arith, h, free, good)))
  ]
]

-- A restore that succeeds went to a free path, and put there the bytes of the source, whose digest
-- is the one that its sidecar holds and which the scan reads to their end.
pub restore_backup-IsSound :
    (source destination after : Stored) (m : BackupManifest)
    → restore_backup source destination ≡ (ok m, after)
    → (bytes : List ℕ) × (destination.file ≡ none)
      × IsSealed source bytes
      × ((scan : Scan) × (scan_path (some bytes) ≡ ok scan) × (scan.has_invalid_tail ≡ false))
      × (after ≡ published destination.path bytes)
      × (m ≡ manifest_of source.path destination.path bytes)
restore_backup-IsSound source destination after m h =
    let (free, (bytes, good, rest)) = restore_backup-eq-ok source destination after m h in
    let (scanned, put, made) =
      publish_restored-eq-ok source.path bytes destination after m (scan_path (some bytes)) rest in
    (bytes, free, verified_source-IsSealed source bytes good, scanned, put, made)
