-- ===== src/Wal/Recovery.antt =====
-- What survives a crash of the writer.
use hoglet.Prelude.{
  ℕ, ◌≤◌, ◌≡◌, refl, sym, ap, true, false, List, [], ◌∷◌, ◌++◌, length, take, All, ok,
}
use hoglet.Wal.Batch.{WalConfig, u64_max}
use hoglet.Wal.Codec.{Codec}
use hoglet.Wal.Scan.{SegmentScan, scan_segment}
use hoglet.Wal.Scan.Frames.{frames, ArePayloads, scan_segment-frames}
use hoglet.Wal.Scan.Cut.{whole, whole-append, scan_segment-cut, take-frames-whole, take-whole-legal}
use hoglet.Wal.Writer.{WriteAheadLog}
use hoglet.Wal.Writer.Append.{Contents, Holds, files}
use hoglet.Wal.Layout.{Segment}
use hoglet.Wal.Layout.Numbered.{AreNumbered, discover-AreNumbered}
use hoglet.Wal.Open.Settles.{
  Settles, settled, create_directory, list, reopen, seek, >>=-Settles, answered-Settles,
  acquire_writer_lock-Settles, scan_file-Settles, Settles-map,
}
use hoglet.Wal.Open.{
  OpenIo, answered, acquire_writer_lock, scan_file, scan_sealed, open_active, open_layout, open_log,
  opened_at,
}

-- Every segment is shorter than a u64 can say.
abbrev pub FitsU64 : Codec → Contents → Type 0
FitsU64 c = All (λ s. length (frames c s.1) ≤ u64_max)

module _ {answers : OpenIo} where
  scan_sealed-Settles :
      (c : Codec) (m : ℕ) (sealed : Contents)
      → All (λ s. ArePayloads c m s.1) sealed
      → FitsU64 c sealed
      → Settles answers (λ _. Unit {0}) (scan_sealed c answers.scans m (files c sealed))
  unfolding scan_sealed
  scan_sealed-Settles c m [] legal fits = settled tt tt
  scan_sealed-Settles c m ((q, ps) ∷ sealed) (legal, others) (fits, more) =
      >>=-Settles (scan_file c (answers.scans q) (frames c ps) q m false) _
        (scan_file-Settles c q (frames c ps) m false _
          (scan_segment-frames c m ps q false legal fits))
        λ _ _. scan_sealed-Settles c m sealed others more

  open_active-Settles :
      (c : Codec) (config : WalConfig) (sealed : List Segment) (active : Segment)
      (result : SegmentScan)
      → scan_segment c active.1 active.0 config.max_record_bytes true ≡ ok result
      → Settles answers
          (λ r. r ≡ (
            opened_at config sealed active.0 (take result.valid_bytes active.1) result.valid_bytes,
            result.truncated_tail,
          ))
          (open_active c config sealed answers active)
  unfolding open_active
  open_active-Settles c config sealed active result e =
      >>=-Settles
        (scan_file c (answers.scans active.0) active.1 active.0 config.max_record_bytes true) _
        (scan_file-Settles c active.0 active.1 config.max_record_bytes true result e)
        λ r same.
          >>=-Settles (answered answers.reopen) _
            (answered-Settles answers.reopen (λ e h. reopen h))
            λ _ _.
              >>=-Settles (answered answers.seek) _ (answered-Settles answers.seek (λ e h. seek h))
                λ _ _. settled _ (rw same refl)

  -- A directory whose segments are numbered and whose scans end well is opened.
  open_log-Settles :
      (c : Codec) (config : WalConfig) (sealed : Contents) (active : Segment) (result : SegmentScan)
      → AreNumbered (files c sealed) active.0
      → All (λ s. ArePayloads c config.max_record_bytes s.1) sealed
      → FitsU64 c sealed
      → scan_segment c active.1 active.0 config.max_record_bytes true ≡ ok result
      → Settles answers
          (λ r. r ≡ (
            opened_at config
                (files c sealed)
                active.0
                (take result.valid_bytes active.1)
                result.valid_bytes,
            result.truncated_tail,
          ))
          (open_log c config answers (files c sealed) (active ∷ []))
  unfolding open_log open_layout
  open_log-Settles c config sealed active result numbered legal fits e =
      >>=-Settles (answered answers.create_directory) _
        (answered-Settles answers.create_directory (λ e h. create_directory h))
        λ _ _.
          >>=-Settles (acquire_writer_lock answers.lock_file answers.try_lock) _
            (acquire_writer_lock-Settles answers.lock_file answers.try_lock refl refl)
            λ _ _.
              >>=-Settles (answered answers.list) _ (answered-Settles answers.list (λ e h. list h))
                λ _ _. rw (discover-AreNumbered (files c sealed) active numbered) (
                  >>=-Settles (scan_sealed c answers.scans config.max_record_bytes (files c sealed))
                    _ (scan_sealed-Settles c config.max_record_bytes sealed legal fits)
                    λ _ _. open_active-Settles c config (files c sealed) active result e)

-- A log that holds the sealed segments and, of the records of the active one, the first ones, which
-- include the first `acked`. It takes records, and its directory is again one that is accepted.
pub record Recovered (c : Codec) (sealed : Contents) (all : List (List ℕ)) (acked : ℕ)
    (log : WriteAheadLog) : Type 0 where
  pub kept : ℕ
  pub holds : Holds c log sealed (take kept all)
  pub acknowledged : acked ≤ kept
  pub numbered : AreNumbered log.sealed log.active.sequence
  pub unpoisoned : log.is_poisoned ≡ false

-- Recovery after a crash: the log was valid and its segments numbered one after the other, its active
-- segment held the records `acked` when it was last synced and `more` after them, and the crash left at
-- least the synced bytes of it. Then `open`, in a directory that lists these segments, returns an error
-- only where it tells of a call of the operating system that failed or of a lock that another writer
-- holds, and otherwise a log that is valid again: every sealed record is there, and of the active
-- segment the first records, which include all of `acked`.
pub open_log-crashed :
    (c : Codec) (log : WriteAheadLog) (sealed : Contents) (acked more : List (List ℕ)) (n : ℕ)
    (answers : OpenIo)
    → Holds c log sealed (acked ++ more)
    → AreNumbered log.sealed log.active.sequence
    → FitsU64 c sealed
    → length (frames c (acked ++ more)) ≤ u64_max
    → length (frames c acked) ≤ n
    → Settles answers
        (λ r. Recovered c sealed (acked ++ more) (length acked) r.0)
        (open_log c log.config answers log.sealed
          ((log.active.sequence, take n log.active.file) ∷ []))
open_log-crashed c log sealed acked more n answers h numbered sealed_fits fits durable =
    let ps = acked ++ more in
    let w = whole c n ps in
    let m = log.config.max_record_bytes in
    let kept = frames c (take w ps) in
    let cut = scan_segment-cut c m n ps log.active.sequence h.active_legal fits in
    let left = take-frames-whole c m n ps h.active_legal in
    rw (h.sealed_files, h.active_file)
      (Settles-map
        (λ r same. rw same (record {
          kept = w;
          holds = record {
            sealed_files = refl;
            active_file = left;
            counted = sym (ap length left);
            limit = h.limit;
            sealed_legal = h.sealed_legal;
            active_legal = take-whole-legal c m n ps h.active_legal;
          };
          acknowledged = whole-append c n acked more durable;
          numbered = rw (← h.sealed_files) numbered;
          unpoisoned = refl;
        }))
        (open_log-Settles c log.config sealed (log.active.sequence, take n (frames c ps)) _
          (rw (← h.sealed_files) numbered) h.sealed_legal sealed_fits cut))
