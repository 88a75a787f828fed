-- ===== src/Wal/Scan/Torn.antt =====
-- What recovery keeps of an active segment whose last write did not land whole.
use hoglet.Wal.Scan.Frames.{
  ArePayloads, frames, scan_segment-frames, scan_segment-frames_rest, scan_loop_finish,
}
use hoglet.Prelude.{
  ℕ, zero, suc, ◌+◌, ◌-◌, ◌≤◌, ◌<◌, ◌≡◌, ◌∙◌, inl, inr, Bool, true, List, [], ◌∷◌, ◌++◌, arith, ltb,
  ltb→lt, lt→ltb, tests, Bool-cases, ◌==◌, nat_eq, string_eq, length, take, all, length-append,
  length-take, Result, ok, list_eq,
}
use mathlib.Core.List.{append-nil}
use hoglet.Wal.Batch.{CapturedBatch, WalError, u64_max}
use hoglet.Wal.Codec.{Codec}
use hoglet.Wal.Frame.{encode_frame, record_header_bytes}
use hoglet.Wal.Frame.RoundTrip.{IsPayload, from_le_bytes-to_le_bytes, length-encode_frame}
use hoglet.Wal.Scan.{SegmentScan, Round, scan_round, scan_segment}

-- `valid_bytes` of the file are kept, and whether more was there.
abbrev pub keeps : ℕ → Bool → Result SegmentScan WalError
keeps valid_bytes truncated_tail =
    ok (record { valid_bytes = valid_bytes; truncated_tail = truncated_tail })

-- Fewer bytes than a header has.
scan_round_short :
    (c : Codec) (rest : List ℕ) (sequence offset m : ℕ)
    → length rest < record_header_bytes
    → scan_round c rest sequence offset m true ≡ Round.finish (keeps offset true)
unfolding scan_round
scan_round_short c rest sequence offset m h = ground arith

-- A whole header, and fewer bytes than its payload has.
scan_round_cut :
    (c : Codec) (m : ℕ) (payload : List ℕ) (batch : CapturedBatch) (sequence offset j : ℕ)
    → IsPayload c m payload batch
    → j < length payload
    → offset + length (encode_frame c payload) ≤ u64_max
    → scan_round c
        (take
          (suc (
            suc (
              suc (suc (suc (suc (suc (suc (suc (suc (suc (suc (suc (suc (suc (suc j))))))))))))))))
          (encode_frame c payload))
        sequence
        offset
        m
        true
      ≡ Round.finish (keeps offset true)
unfolding scan_round encode_frame
scan_round_cut c m payload batch sequence offset j p h fits =
    ground (arith, from_le_bytes-to_le_bytes (length payload), length-take j payload)

-- A part of a record, of whatever length, ends the scan in front of it.
scan_round_torn :
    (c : Codec) (m : ℕ) (payload : List ℕ) (batch : CapturedBatch) (sequence offset n : ℕ)
    → IsPayload c m payload batch
    → n < length (encode_frame c payload)
    → offset + length (encode_frame c payload) ≤ u64_max
    → scan_round c (take n (encode_frame c payload)) sequence offset m true
      ≡ Round.finish (keeps offset true)
scan_round_torn c m payload batch sequence offset n p h fits =
    let f = encode_frame c payload in
    elim (Bool-cases (ltb n record_header_bytes)) [
      | inl short ↦
          scan_round_short c (take n f) sequence offset m
            (omega (tests, length-take n f, ltb→lt n record_header_bytes short))
      | inr whole ↦
          let j = n - 16 in
          let e : n
              ≡ suc (
                  suc (
                    suc (
                      suc (
                        suc
                          (suc (suc (suc (suc (suc (suc (suc (suc (suc (suc (suc j))))))))))))))) =
            ground arith in
          rw e (
            scan_round_cut c m payload batch sequence offset j p
              (omega (arith, length-encode_frame c payload, e)) fits)
    ]

-- Blocks of zeros end the scan in front of them.
scan_round_zeros :
    (c : Codec) (m sequence offset : ℕ) (zeros : List ℕ)
    → all (λ b. b == 0) (0 ∷ zeros) ≡ true
    → scan_round c (0 ∷ zeros) sequence offset m true ≡ Round.finish (keeps offset true)
unfolding scan_round
scan_round_zeros c m sequence offset zeros h = ground arith

take-nonempty : (n : ℕ) (l : List ℕ) → 0 < n → 0 < length l → 0 < length (take n l)
take-nonempty n l h k = omega (arith, length-take n l)

-- After a crash in the middle of the last write: when the active segment holds whole records and then
-- a proper part of one more record, recovery keeps exactly the whole records, and reports a truncated
-- tail exactly when that part is not empty.
pub scan_segment-torn :
    (c : Codec) (m : ℕ) (payloads : List (List ℕ)) (payload : List ℕ) (batch : CapturedBatch)
    (sequence n : ℕ)
    → ArePayloads c m payloads
    → IsPayload c m payload batch
    → n < length (encode_frame c payload)
    → length (frames c payloads ++ encode_frame c payload) ≤ u64_max
    → scan_segment c (frames c payloads ++ take n (encode_frame c payload)) sequence m true
      ≡ keeps (length (frames c payloads)) (ltb 0 n)
scan_segment-torn c m payloads payload batch sequence zero ps p h fits = rw append-nil (
    scan_segment-frames c m payloads sequence true ps
      (omega (arith, length-append (frames c payloads) (encode_frame c payload))))
scan_segment-torn c m payloads payload batch sequence (suc n) ps p h fits =
    let f = frames c payloads in
    let g = encode_frame c payload in
    let part = take (suc n) g in
    let l = length-append f g in
    rw (lt→ltb 0 (suc n) (omega arith)) (
      scan_segment-frames_rest c m payloads part sequence true (omega arith) ps
        (omega (arith, l, length-append f part, length-take (suc n) g))
      ∙ scan_loop_finish c (suc (length part)) part sequence (length f) m true
          (keeps (length f) true) (omega arith)
          (take-nonempty (suc n) g (omega arith) (omega arith))
          (scan_round_torn c m payload batch sequence (length f) (suc n) p h (omega arith)))

-- After a crash that left blocks of zeros: when the active segment holds whole records and then only
-- zeros, recovery keeps exactly the records.
pub scan_segment-zeros :
    (c : Codec) (m : ℕ) (payloads : List (List ℕ)) (sequence : ℕ) (zeros : List ℕ)
    → ArePayloads c m payloads
    → all (λ b. b == 0) zeros ≡ true
    → length (frames c payloads ++ zeros) ≤ u64_max
    → scan_segment c (frames c payloads ++ zeros) sequence m true
      ≡ keeps (length (frames c payloads)) (ltb 0 (length zeros))
scan_segment-zeros c m payloads sequence [] ps z fits = rw append-nil (
    scan_segment-frames c m payloads sequence true ps
      (omega (arith, length-append {0} (frames c payloads) [])))
scan_segment-zeros c m payloads sequence (zero ∷ zs) ps z fits =
    rw (lt→ltb 0 (suc (length zs)) (omega arith)) (
      scan_segment-frames_rest c m payloads (0 ∷ zs) sequence true (omega arith) ps fits
      ∙ scan_loop_finish c (suc (length (0 ∷ zs))) (0 ∷ zs) sequence (length (frames c payloads)) m
          true (keeps (length (frames c payloads)) true) (omega arith) (omega arith)
          (scan_round_zeros c m sequence (length (frames c payloads)) zs z))
scan_segment-zeros c m payloads sequence (suc b ∷ zs) ps z fits = ground arith
