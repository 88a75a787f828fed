-- ===== src/Wal/Samples/Tests.antt =====
-- Openings of a small log.
use hoglet.Wal.Samples.{counting, config, stored, ones, calm, quiet, batch_of}
use hoglet.Wal.Open.{open_log, opened_at}
use hoglet.Wal.Scan.{scan_segment}
use hoglet.Wal.Scan.Frames.{frames}
use hoglet.Wal.Frame.{encode_frame}
use hoglet.Wal.Batch.{is_nil, io, other}
use hoglet.Wal.Layout.{discover_segment_layout, discover, check_windows, insert_sequence}
use hoglet.Prelude.{◌≡◌, refl, true, some, [], ◌∷◌, take, ok, err}

-- Twenty bytes are one record, and two bytes of the next.
opened_test :
    open_log counting config calm [] ((1, take 20 (frames counting stored)) ∷ [])
    ≡ ok (opened_at config [] 1 (frames counting (ones 2 ∷ [])) 18, true)
unfolding open_log discover_segment_layout discover check_windows insert_sequence frames
    encode_frame counting scan_segment batch_of is_nil
opened_test = refl

unrepaired_test :
    open_log counting config
      (record calm { scans = λ _. record quiet { set_len = some other } })
      []
      ((1, take 20 (frames counting stored)) ∷ [])
    ≡ err (io other)
unfolding open_log discover_segment_layout discover check_windows insert_sequence frames
    encode_frame counting scan_segment batch_of is_nil
unrepaired_test = refl
