-- ===== src/Wal/Open.antt =====
-- src/pipeline/wal.rs: opening the log. The answers of the operating system are an argument: `none` when a
-- call succeeds. The copy that recovery keeps of a torn tail is not modelled; its failures are ignored by
-- the source.
pub mod Settles
use hoglet.Prelude.{
  ℕ, Bool, true, false, Option, none, some, List, [], ◌∷◌, take, Result, ok, err, ◌>>=◌, ◌>>◌,
}
use hoglet.Wal.Batch.{WalError, WalConfig, IoError, io, invalid_config, writer_locked}
use hoglet.Wal.Codec.{Codec}
use hoglet.Wal.Scan.{SegmentScan, scan_segment}
use hoglet.Wal.Layout.{Segment, SegmentLayout, last_of, checked_suc, discover_segment_layout}
use hoglet.Wal.Writer.{WriteAheadLog, Outcome}

-- The answers to the calls of one scan: those that open the file and ask for its length, and the seeks and
-- reads, of which the first that fails ends the scan; then the repair of a torn tail.
pub record ScanIo : Type 0 where
  pub open_file : Outcome
  pub read : Outcome
  pub set_len : Outcome
  pub sync_all : Outcome

-- `File::try_lock`.
pub data LockAnswer : Type 0 where
  acquired would_block : LockAnswer
  lock_error : IoError → LockAnswer

-- The answers to the calls of one opening. `scans` has those of the segment with a sequence, and `list`
-- those to the calls that list the directory.
pub record OpenIo : Type 0 where
  pub create_directory : Outcome
  pub lock_file : Outcome
  pub try_lock : LockAnswer
  pub list : Outcome
  pub scans : ℕ → ScanIo
  pub reopen : Outcome
  pub seek : Outcome
  pub open_new_active : Outcome

-- The `?` behind a call.
abbrev pub answered : Outcome → Result (Unit {0}) WalError
answered none = ok tt
answered (some e) = err (io e)

abbrev pub acquire_writer_lock : Outcome → LockAnswer → Result (Unit {0}) WalError
acquire_writer_lock (some e) lock = err (io e)
acquire_writer_lock none acquired = ok tt
acquire_writer_lock none would_block = err writer_locked
acquire_writer_lock none (lock_error e) = err (io e)

-- `if truncated_tail { …; file.set_len(offset)?; file.sync_all()?; }`
abbrev pub repair : ScanIo → Bool → Result (Unit {0}) WalError
repair answers false = ok tt
repair answers true = answered answers.set_len >> answered answers.sync_all

-- `scan_segment`, with its calls.
unfoldable pub scan_file : Codec → ScanIo → List ℕ → ℕ → ℕ → Bool → Result SegmentScan WalError
scan_file c answers file sequence max_record_bytes repair_final_tail = do
  answered answers.open_file
  answered answers.read
  scan ← scan_segment c file sequence max_record_bytes repair_final_tail
  repair answers scan.truncated_tail
  ok scan

-- `for (sequence, path) in &layout.sealed { scan_segment(…)?; }`
unfoldable pub scan_sealed : Codec → (ℕ → ScanIo) → ℕ → List Segment → Result (Unit {0}) WalError
unfolding scan_file
scan_sealed c answers max_record_bytes [] = ok tt
scan_sealed c answers max_record_bytes (s ∷ ss) =
    scan_file c (answers s.0) s.1 s.0 max_record_bytes false >>= λ _.
    scan_sealed c answers max_record_bytes ss

-- The sequence of a new active segment.
abbrev pub first_active : Option Segment → Option ℕ
first_active none = some 1
first_active (some last) = checked_suc last.0

abbrev pub opened_at : WalConfig → List Segment → ℕ → List ℕ → ℕ → WriteAheadLog
opened_at config sealed sequence file bytes = record {
  config = config;
  sealed = sealed;
  active = record { sequence = sequence; file = file; bytes = bytes };
  is_poisoned = false;
}

-- The active segment of the layout, recovered.
unfoldable pub open_active :
    Codec → WalConfig → List Segment → OpenIo → Segment → Result (WriteAheadLog × Bool) WalError
unfolding scan_file
open_active c config sealed answers active = do
  scan ← scan_file c (answers.scans active.0) active.1 active.0 config.max_record_bytes true
  answered answers.reopen
  answered answers.seek
  ok (
    opened_at config sealed active.0 (take scan.valid_bytes active.1) scan.valid_bytes,
    scan.truncated_tail,
  )

-- A new active segment, where the layout has none.
unfoldable pub create_active :
    WalConfig → List Segment → OpenIo → Result (WriteAheadLog × Bool) WalError
create_active config sealed answers = elim (first_active (last_of sealed)) [
  | none ↦ err invalid_config
  | some sequence ↦
      answered answers.open_new_active >>= λ _. ok (opened_at config sealed sequence [] 0, false)
]

-- `open` from the layout on: the log, and whether a tail was truncated.
unfoldable pub open_layout :
    Codec → WalConfig → OpenIo → SegmentLayout → Result (WriteAheadLog × Bool) WalError
unfolding scan_sealed open_active create_active
open_layout c config answers layout =
    scan_sealed c answers.scans config.max_record_bytes layout.sealed >>= λ _. elim layout.active [
      | some active ↦ open_active c config layout.sealed answers active
      | none ↦ create_active config layout.sealed answers
    ]

-- `WriteAheadLog::open` in a directory that lists these segments.
unfoldable pub open_log :
    Codec
    → WalConfig
    → OpenIo
    → List Segment
    → List Segment
    → Result (WriteAheadLog × Bool) WalError
unfolding open_layout
open_log c config answers sealed actives = do
  answered answers.create_directory
  acquire_writer_lock answers.lock_file answers.try_lock
  answered answers.list
  layout ← discover_segment_layout sealed actives
  open_layout c config answers layout
