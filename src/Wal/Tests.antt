-- ===== src/Wal/Tests.antt =====
-- Tests of the log, and the theorems about it at concrete batches.
use hoglet.Wal.Samples.{
  holding-IsNumbered, calm, counting, two_views, holding, tokens, two, ones, stored, batch_of,
  config, IsPayload-ones_two, stored-legal, fine, bytes_of, holding-Holds, stored-fits,
}
use hoglet.Wal.Recovery.{Recovered, open_log-crashed}
use hoglet.Wal.Open.{would_block, open_log}
use hoglet.Wal.Open.Settles.{Settles}
use hoglet.Wal.Writer.Numbered.{IsNumbered, start, wrote, Run-IsNumbered}
use hoglet.Wal.Batch.Authorized.{authorized-project_ids}
use hoglet.Wal.Frame.RoundTrip.{read_record-encode_frame}
use hoglet.Prelude.Text.{is_blank}
use hoglet.Wal.Scan.Torn.{keeps, scan_segment-zeros}
use hoglet.Wal.Scan.Cut.{whole, scan_segment-cut}
use hoglet.Wal.Layout.Contiguous.{IsContiguous, discover-IsContiguous}
use hoglet.Wal.Writer.Append.{Appended, records, write-Appended}
use hoglet.Prelude.Map.{has_key, lookup}
use hoglet.Wal.Scan.{scan_segment}
use hoglet.Wal.Frame.{read_record, encode_frame}
use hoglet.Wal.Scan.Frames.{frames, scan_segment-frames}
use hoglet.Wal.Layout.{Segment, discover_segment_layout, discover, check_windows, insert_sequence}
use hoglet.Wal.Writer.{write, WriteAheadLog, write_payload, write_frame, seal_nonempty}
use hoglet.Prelude.{
  ℕ, ◌≤◌, String, ◌≡◌, refl, true, false, none, some, List, [], ◌∷◌, ◌++◌, arith, ltb, nat_eq,
  string_eq, length, take, All, ok, err, list_eq,
}
use hoglet.Prelude.Int.{pos}
use hoglet.Wal.Batch.{writer_locked, authorized, project_ids, is_nil, WalReceipt}

two-authorized : authorized two_views tokens false (pos 5) ≡ ok two
unfolding authorized has_key lookup is_blank is_nil
two-authorized = refl

authorized-project_ids_example :
    (1 ≤ length two.events)
    × ((ids : List String) × (project_ids two ≡ some ids)
        × (length ids ≡ length two.events)
        × All (λ p. is_blank p ≡ false) ids)
authorized-project_ids_example =
    authorized-project_ids two_views tokens false (pos 5) two two-authorized

read_record-encode_frame_example :
    read_record counting (encode_frame counting (ones 2) ++ (0 ∷ [])) 1 0 1000
    ≡ ok (some (batch_of (ones 2), length (encode_frame counting (ones 2))))
read_record-encode_frame_example =
    read_record-encode_frame counting 1000 (ones 2) (0 ∷ []) (batch_of (ones 2)) 1 0
      IsPayload-ones_two

scan_segment-zeros_example :
    scan_segment counting (frames counting stored ++ 0 ∷ 0 ∷ []) 1 1000 true
    ≡ keeps (length (frames counting stored)) (ltb 0 2)
unfolding frames encode_frame
scan_segment-zeros_example =
    scan_segment-zeros counting 1000 stored 1 (0 ∷ 0 ∷ []) stored-legal refl (omega arith)

scan_segment-cut_example :
    scan_segment counting (take 20 (frames counting stored)) 1 1000 true
    ≡ keeps (length (frames counting (take (whole counting 20 stored) stored))) (
        ltb
          (length (frames counting (take (whole counting 20 stored) stored)))
          (length (take 20 (frames counting stored))))
scan_segment-cut_example = scan_segment-cut counting 1000 20 stored 1 stored-legal stored-fits

kept_of_twenty : whole counting 20 stored ≡ 1
unfolding whole encode_frame
kept_of_twenty = refl

-- The third record does not fit a segment of 40 bytes, and opens the next one.
write_third : WriteAheadLog
write_third = (write counting holding two fine none).0

receipt : WalReceipt
receipt = record {
  span = record {
    start = record { segment = 2; byte_offset = 0 };
    finish = record { segment = 2; byte_offset = 18 };
    framed_bytes = 18;
  };
  event_count = 2;
}

third : write counting holding two fine none ≡ (write_third, ok receipt)
unfolding write write_payload write_frame seal_nonempty is_nil frames encode_frame write_third
    receipt batch_of bytes_of
third = refl

write-Appended_example :
    (payload : List ℕ) × (counting.to_vec two ≡ some payload)
    × Appended counting holding write_third (records [] stored) payload receipt
write-Appended_example =
    write-Appended counting holding write_third two fine none receipt [] stored holding-Holds
      (omega arith) third

Run-IsNumbered_example : IsNumbered write_third
Run-IsNumbered_example = Run-IsNumbered (wrote two fine none receipt start third) holding-IsNumbered

held_test :
    open_log counting config (record calm { try_lock = would_block }) [] ((1, []) ∷ [])
    ≡ err writer_locked
unfolding open_log
held_test = refl

open_log-crashed_example :
    Settles calm
      (λ r. Recovered counting [] stored 1 r.0)
      (open_log counting holding.config calm holding.sealed
        ((holding.active.sequence, take 20 holding.active.file) ∷ []))
unfolding frames encode_frame
open_log-crashed_example =
    open_log-crashed counting holding [] (ones 2 ∷ []) (ones 2 ∷ []) 20 calm holding-Holds
      holding-IsNumbered tt stored-fits (omega arith)

abbrev listing : List Segment
listing = (3, []) ∷ (4, []) ∷ []

accepted :
    discover_segment_layout listing ((5, []) ∷ [])
    ≡ ok (record { sealed = listing; active = some (5, []) })
unfolding discover_segment_layout discover check_windows insert_sequence
accepted = refl

discover-IsContiguous_example :
    (listing ≡ listing) × IsContiguous (record { sealed = listing; active = some (5, []) })
discover-IsContiguous_example =
    discover-IsContiguous listing ((5, []) ∷ [])
      (record { sealed = listing; active = some (5, []) }) accepted

scan_segment-frames_example :
    scan_segment counting (frames counting stored) 1 1000 false
    ≡ ok (record { valid_bytes = length (frames counting stored); truncated_tail = false })
scan_segment-frames_example =
    scan_segment-frames counting 1000 stored 1 false stored-legal stored-fits
