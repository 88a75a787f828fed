-- ===== src/Wal/Cursor/Boundary.antt =====
-- The offsets between whole records are accepted as boundaries.
use hoglet.Wal.Frame.RoundTrip.{IsPayload, length-encode_frame, from_le_bytes-to_le_bytes}
use hoglet.Wal.Frame.{encode_frame}
use hoglet.Wal.Scan.Frames.{frames, ArePayloads}
use hoglet.Wal.Cursor.{
  frame_bytes_at, boundary_loop, Codec, record_header_bytes, is_record_boundary,
}
use mathlib.Core.List.{append_assoc}
use hoglet.Wal.Batch.{CapturedBatch, u64_max}
use hoglet.Prelude.{
  ℕ, zero, suc, ◌+◌, ◌≤◌, ◌<◌, ◌≡◌, ◌∙◌, inl, inr, true, false, List, [], ◌∷◌, ◌++◌, arith, ltb,
  Bool-cases, ◌==◌, nat_eq, string_eq, length, length-append, drop-append, ok, list_eq,
}

-- The header at a whole record says how long its frame is.
frame_bytes_at-encode_frame :
    (c : Codec) (m : ℕ) (front payload rest : List ℕ) (batch : CapturedBatch) (sequence : ℕ)
    → IsPayload c m payload batch
    → length front + length (encode_frame c payload ++ rest) ≤ u64_max
    → frame_bytes_at (front ++ (encode_frame c payload ++ rest)) sequence (length front) m
      ≡ ok (record_header_bytes + length payload)
unfolding frame_bytes_at encode_frame
frame_bytes_at-encode_frame c m front payload rest batch sequence p h = ground (
  arith,
  drop-append front (encode_frame c payload ++ rest),
  c.crc32_bound payload,
  from_le_bytes-to_le_bytes (length payload),
  from_le_bytes-to_le_bytes (c.crc32 payload),
  length-append payload rest,
)

boundary_loop-here :
    (k : ℕ) (file : List ℕ) (sequence offset target m : ℕ)
    → offset ≡ target
    → boundary_loop k file sequence offset target m ≡ ok true
unfolding boundary_loop
boundary_loop-here zero file sequence offset target m e = ground arith
boundary_loop-here (suc k) file sequence offset target m e = ground arith

boundary_loop-pass :
    (k : ℕ) (file : List ℕ) (sequence offset target m n : ℕ)
    → offset < target
    → frame_bytes_at file sequence offset m ≡ ok n
    → offset + n ≤ target
    → boundary_loop (suc k) file sequence offset target m
      ≡ boundary_loop k file sequence (offset + n) target m
unfolding boundary_loop
boundary_loop-pass k file sequence offset target m n l e h =
    let more : ltb offset target ≡ true = ground arith in
    let inside : ltb target (offset + n) ≡ false = ground arith in
    rw (boundary_loop, more, e, inside)

boundary_loop-frames :
    (c : Codec) (m k : ℕ) (front : List ℕ) (passed ps : List (List ℕ)) (sequence target : ℕ)
    → ArePayloads c m passed
    → length (front ++ frames c (passed ++ ps)) ≤ u64_max
    → target ≡ length front + length (frames c passed)
    → target ≤ length front + k
    → boundary_loop k (front ++ frames c (passed ++ ps)) sequence (length front) target m ≡ ok true
unfolding frames
boundary_loop-frames c m k front [] ps sequence target legal fits at near =
    boundary_loop-here k (front ++ frames c ps) sequence (length front) target m (omega arith)
boundary_loop-frames c m zero front (p ∷ passed) ps sequence target legal fits at near =
    absurd
      (omega (arith, length-encode_frame c p, length-append (encode_frame c p) (frames c passed)))
boundary_loop-frames c m (suc k) front (p ∷ passed) ps sequence target ((batch, legal), others) fits
      at near =
    let e = encode_frame c p in
    let rest = frames c (passed ++ ps) in
    let n = length-encode_frame c p in
    let here : target ≡ length front + (record_header_bytes + length p) + length (frames c passed) =
      omega (arith, length-append e (frames c passed)) in
    let forward : length (front ++ e) ≡ length front + (record_header_bytes + length p) =
      omega (arith, length-append front e) in
    let whole = append_assoc front e rest in
    let fits' : length ((front ++ e) ++ rest) ≤ u64_max = rw whole fits in
    boundary_loop-pass k (front ++ (e ++ rest)) sequence (length front) target m
      (record_header_bytes + length p) (omega arith)
      (frame_bytes_at-encode_frame c m front p rest batch sequence legal
        (omega (arith, length-append front (e ++ rest))))
      (omega arith)
    ∙ rw (← forward, ← whole)
        (boundary_loop-frames c m k (front ++ e) passed ps sequence target others fits'
          (omega arith) (omega arith))

-- Behind any number of the whole records of a file the cursor is on a boundary.
pub is_record_boundary-frames :
    (c : Codec) (m : ℕ) (passed ps : List (List ℕ)) (sequence : ℕ)
    → ArePayloads c m passed
    → length (frames c (passed ++ ps)) ≤ u64_max
    → is_record_boundary (frames c (passed ++ ps)) sequence (length (frames c passed)) m ≡ ok true
unfolding is_record_boundary
is_record_boundary-frames c m passed ps sequence legal fits =
    elim (Bool-cases (length (frames c passed) == 0)) [
      | inl start ↦ rw start
      | inr inner ↦ rw inner (
          boundary_loop-frames c m (length (frames c passed)) [] passed ps sequence
            (length (frames c passed)) legal fits (omega arith) (omega arith))
    ]
