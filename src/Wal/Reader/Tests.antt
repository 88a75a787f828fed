-- ===== src/Wal/Reader/Tests.antt =====
-- Tests of the reader, and the theorems about it at a log of one sealed segment with two records.
use hoglet.Wal.Reader.Publication.{Published, active_segments, read_window-Published, IsListed}
use hoglet.Wal.Layout.{discover_segment_layout, discover, check_windows, insert_sequence}
use hoglet.Wal.Writer.{WriteAheadLog}
use hoglet.Wal.Frame.{encode_frame, validate_header}
use hoglet.Wal.Cursor.Race.{IsChosen, retry_layout_race-IsChosen}
use hoglet.Wal.Reader.Stream.{payload_records, stream}
use hoglet.Wal.Reader.Reclaim.Kept.{Keeps, reclaim_through_once-Keeps}
use hoglet.Wal.Cursor.{is_record_boundary, validate_cursor, retry_layout_race}
use hoglet.Wal.Samples.{bytes_of, stored, ones, counting, config, stored-legal, batch_of}
use hoglet.Wal.Scan.Frames.{frames}
use hoglet.Wal.Reader.Reclaim.{reclaim_through_once}
use hoglet.Wal.Reader.{at_offset}
use hoglet.Wal.Reader.Position.{Place, at_end, within, IsPlace, records_left}
use hoglet.Wal.Scan.{scan_segment}
use hoglet.Wal.Batch.{is_nil, WalError, IoError, io, not_found}
use hoglet.Wal.Writer.Append.{Contents, files, Holds}
use hoglet.Prelude.{ℕ, zero, suc, ◌≡◌, refl, false, none, some, [], ◌∷◌, arith, Result, ok, err}

abbrev sealed_three : Contents
sealed_three = (3, stored) ∷ []

abbrev log : WriteAheadLog
unfolding frames encode_frame
log = record {
  config = config;
  sealed = files counting sealed_three;
  active = record { sequence = 4; file = frames counting (ones 2 ∷ []); bytes = 18 };
  is_poisoned = false;
}

log-Holds : Holds counting log sealed_three (ones 2 ∷ [])
unfolding frames encode_frame
log-Holds = record {
  sealed_files = refl;
  active_file = refl;
  counted = refl;
  limit = omega arith;
  sealed_legal = (stored-legal, tt);
  active_legal = (stored-legal.0, tt);
}

log-IsListed : IsListed counting log sealed_three (ones 2 ∷ [])
unfolding frames encode_frame discover_segment_layout discover check_windows insert_sequence
log-IsListed = record {
  holds = log-Holds;
  sealed_fits = (omega arith, tt);
  active_fits = omega arith;
  accepted = refl;
}

-- Behind the first record of the sealed segment.
abbrev second : Place
second = within 3 (ones 2 ∷ []) (ones 2 ∷ []) []

second-IsPlace : IsPlace sealed_three second
second-IsPlace = ([], refl)

read_window-Published_example : Published counting log sealed_three second 20 5
unfolding records_left payload_records stream batch_of bytes_of
read_window-Published_example =
    read_window-Published counting log sealed_three (ones 2 ∷ []) second 20 5 log-IsListed
      second-IsPlace (omega arith) (omega arith) (omega arith)

reclaim_through_once-Keeps_example :
    Keeps counting sealed_three at_end
      (reclaim_through_once counting config
        (at_offset 4 0)
        log.sealed
        (active_segments log)
        (some IoError.other ∷ [])
        none).0
unfolding log
reclaim_through_once-Keeps_example =
    reclaim_through_once-Keeps counting log sealed_three (ones 2 ∷ []) at_end
      (some IoError.other ∷ []) none log-IsListed tt tt

-- The first attempt finds a file gone, the second one succeeds.
abbrev second_wins : ℕ → Result ℕ WalError
second_wins zero = err (io not_found)
second_wins (suc i) = ok i

retry_layout_race-IsChosen_example :
    (i : ℕ) × (retry_layout_race second_wins ≡ second_wins i) × IsChosen second_wins 0 50 i
retry_layout_race-IsChosen_example = retry_layout_race-IsChosen second_wins

retried : retry_layout_race second_wins ≡ ok 0
unfolding retry_layout_race
retried = refl

-- The checkpoint at the end of the sealed segments covers all of them.
reclaimed :
    (reclaim_through_once counting config
      (at_offset 4 0)
      log.sealed
      (active_segments log)
      []
      none).1
    ≡ ok (3 ∷ [])
unfolding reclaim_through_once discover_segment_layout discover check_windows insert_sequence log
    validate_cursor scan_segment validate_header batch_of bytes_of frames encode_frame is_nil
    is_record_boundary
reclaimed = refl
