-- ===== src/Wal/Scan/Frames.antt =====
-- The scan over a file that begins with whole records.
use hoglet.Prelude.{
  ℕ, zero, suc, ◌+◌, ◌≤◌, ◌<◌, ◌≡◌, refl, sym, ap, ◌∙◌, Bool, false, List, [], ◌∷◌, ◌++◌, arith,
  length, drop, All, length-append, take-append, drop-append, Result, ok,
}
use mathlib.Core.Path.{subst}
use mathlib.Core.List.{append-nil, append_assoc}
use hoglet.Wal.Batch.{CapturedBatch, WalError, u64_max}
use hoglet.Wal.Codec.{Codec}
use hoglet.Wal.Frame.{encode_frame, record_header_bytes}
use hoglet.Wal.Frame.RoundTrip.{IsPayload, from_le_bytes-to_le_bytes, length-encode_frame}
use hoglet.Wal.Scan.{SegmentScan, Round, scan_round, scan_loop, scan_segment, drop_shorter}

-- The bytes of records one after the other.
unfoldable pub frames : Codec → List (List ℕ) → List ℕ
frames c [] = []
frames c (p ∷ ps) = encode_frame c p ++ frames c ps

-- Payloads that the log takes.
abbrev pub ArePayloads : Codec → ℕ → List (List ℕ) → Type 0
ArePayloads c m = All (λ p. (batch : CapturedBatch) × IsPayload c m p batch)

-- At a whole record the loop takes its frame.
pub scan_round-encode_frame :
    (c : Codec) (m : ℕ) (payload rest : List ℕ) (batch : CapturedBatch) (sequence offset : ℕ)
    (repair : Bool)
    → IsPayload c m payload batch
    → offset + length (encode_frame c payload ++ rest) ≤ u64_max
    → scan_round c (encode_frame c payload ++ rest) sequence offset m repair
      ≡ Round.frame (length payload)
unfolding scan_round encode_frame
scan_round-encode_frame c m payload rest batch sequence offset repair p h = ground (
  arith,
  c.crc32_bound payload,
  from_le_bytes-to_le_bytes (length payload),
  from_le_bytes-to_le_bytes (c.crc32 payload),
  take-append payload rest,
  length-append payload rest,
)

-- The bound on what is left does not change the result.
scan_loop_bound :
    (c : Codec) (k k' : ℕ) (rest : List ℕ) (sequence offset m : ℕ) (repair : Bool)
    (h : length rest < k) (h' : length rest < k')
    → scan_loop c k rest sequence offset m repair h
      ≡ scan_loop c k' rest sequence offset m repair h'
unfolding scan_loop
scan_loop_bound c zero k' rest sequence offset m repair h h' = absurd (omega arith)
scan_loop_bound c (suc k) zero rest sequence offset m repair h h' = absurd (omega arith)
scan_loop_bound c (suc k) (suc k') [] sequence offset m repair h h' = refl
scan_loop_bound c (suc k) (suc k') (b ∷ bs) sequence offset m repair h h' =
    elim (scan_round c (b ∷ bs) sequence offset m repair)
      as (λ r.
        ◌≡◌ {A = Result SegmentScan WalError}
          (elim r [
            | Round.finish result ↦ result
            | Round.frame len ↦
                scan_loop c k (drop (record_header_bytes + len) (b ∷ bs)) sequence
                  (offset + (record_header_bytes + len)) m repair (drop_shorter k len b bs h)
          ])
          (elim r [
            | Round.finish result ↦ result
            | Round.frame len ↦
                scan_loop c k' (drop (record_header_bytes + len) (b ∷ bs)) sequence
                  (offset + (record_header_bytes + len)) m repair (drop_shorter k' len b bs h')
          ])) [
            | Round.finish result ↦ refl
            | Round.frame len ↦
                scan_loop_bound c k k' (drop (record_header_bytes + len) (b ∷ bs)) sequence
                  (offset + (record_header_bytes + len)) m repair (drop_shorter k len b bs h)
                  (drop_shorter k' len b bs h')
          ]

-- One round that ends the loop.
pub scan_loop_finish :
    (c : Codec) (k : ℕ) (rest : List ℕ) (sequence offset m : ℕ) (repair : Bool)
    (result : Result SegmentScan WalError) (h : length rest < k)
    → 0 < length rest
    → scan_round c rest sequence offset m repair ≡ Round.finish result
    → scan_loop c k rest sequence offset m repair h ≡ result
unfolding scan_loop
scan_loop_finish c zero rest sequence offset m repair result h p e = absurd (omega arith)
scan_loop_finish c (suc k) [] sequence offset m repair result h p e = absurd (omega arith)
scan_loop_finish c (suc k) (b ∷ bs) sequence offset m repair result h p e = rw (e, scan_loop)

-- One round that takes a frame.
scan_loop_frame :
    (c : Codec) (k k' : ℕ) (rest tail : List ℕ) (sequence offset m len : ℕ) (repair : Bool)
    (h : length rest < k) (h' : length tail < k')
    → 0 < length rest
    → scan_round c rest sequence offset m repair ≡ Round.frame len
    → drop (record_header_bytes + len) rest ≡ tail
    → scan_loop c k rest sequence offset m repair h
      ≡ scan_loop c k' tail sequence (offset + (record_header_bytes + len)) m repair h'
unfolding scan_loop
scan_loop_frame c zero k' rest tail sequence offset m len repair h h' p e d = absurd (omega arith)
scan_loop_frame c (suc k) k' [] tail sequence offset m len repair h h' p e d = absurd (omega arith)
scan_loop_frame c (suc k) k' (b ∷ bs) tail sequence offset m len repair h h' p e d =
    rw (e, scan_loop)
      (subst
        (λ t.
          (q : length t < k')
          → scan_loop c k (drop (record_header_bytes + len) (b ∷ bs)) sequence
              (offset + (record_header_bytes + len)) m repair (drop_shorter k len b bs h)
            ≡ scan_loop c k' t sequence (offset + (record_header_bytes + len)) m repair q)
        d (λ q. scan_loop_bound c k k' _ sequence _ m repair (drop_shorter k len b bs h) q) h')

drop-encode_frame :
    (c : Codec) (payload rest : List ℕ)
    → drop (record_header_bytes + length payload) (encode_frame c payload ++ rest) ≡ rest
drop-encode_frame c payload rest =
    rw (← length-encode_frame c payload) (drop-append (encode_frame c payload) rest)

-- Whole records in front are passed over.
pub scan_loop-frames :
    (c : Codec) (m : ℕ) (payloads : List (List ℕ)) (rest : List ℕ) (sequence offset k k' : ℕ)
    (repair : Bool) (h : length (frames c payloads ++ rest) < k) (h' : length rest < k')
    → ArePayloads c m payloads
    → offset + length (frames c payloads ++ rest) ≤ u64_max
    → scan_loop c k (frames c payloads ++ rest) sequence offset m repair h
      ≡ scan_loop c k' rest sequence (offset + length (frames c payloads)) m repair h'
unfolding frames
scan_loop-frames c m [] rest sequence offset k k' repair h h' ps fits =
    let e : offset + 0 ≡ offset = omega arith in
    rw e (scan_loop_bound c k k' rest sequence offset m repair h h')
scan_loop-frames c m (p ∷ ps) rest sequence offset k k' repair h h' ((batch, legal), others) fits =
    let f = encode_frame c p in
    let tail = frames c ps ++ rest in
    let n = length-encode_frame c p in
    let l : length ((f ++ frames c ps) ++ rest) ≡ record_header_bytes + length p + length tail =
      omega (arith, ap length (append_assoc f (frames c ps) rest), length-append f tail) in
    let l' : length (f ++ tail) ≡ record_header_bytes + length p + length tail =
      omega (arith, length-append f tail) in
    let e : offset + length (f ++ frames c ps)
        ≡ offset + (record_header_bytes + length p) + length (frames c ps) =
      omega (arith, length-append f (frames c ps)) in
    rw e (
      scan_loop_frame c k (suc (length tail)) ((f ++ frames c ps) ++ rest) tail sequence offset m
        (length p) repair h (omega arith) (omega arith)
        (rw append_assoc
          (scan_round-encode_frame c m p tail batch sequence offset repair legal (omega arith)))
        (rw append_assoc (drop-encode_frame c p tail))
      ∙ scan_loop-frames c m ps rest sequence (offset + (record_header_bytes + length p))
          (suc (length tail)) k' repair (omega arith) h' others (omega arith))

-- The scan of a file that begins with whole records is the loop over what follows them.
pub scan_segment-frames_rest :
    (c : Codec) (m : ℕ) (payloads : List (List ℕ)) (rest : List ℕ) (sequence : ℕ) (repair : Bool)
    (h : length rest < suc (length rest))
    → ArePayloads c m payloads
    → length (frames c payloads ++ rest) ≤ u64_max
    → scan_segment c (frames c payloads ++ rest) sequence m repair
      ≡ scan_loop c (suc (length rest)) rest sequence (length (frames c payloads)) m repair h
unfolding scan_segment
scan_segment-frames_rest c m payloads rest sequence repair h ps fits =
    let e : 0 + length (frames c payloads) ≡ length (frames c payloads) = omega arith in
    rw e at (
      scan_loop-frames c m payloads rest sequence 0 (suc (length (frames c payloads ++ rest)))
        (suc (length rest)) repair (omega arith) h ps (omega arith))

-- A segment of whole records is valid to its end, whether it is the active one or sealed.
pub scan_segment-frames :
    (c : Codec) (m : ℕ) (payloads : List (List ℕ)) (sequence : ℕ) (repair : Bool)
    → ArePayloads c m payloads
    → length (frames c payloads) ≤ u64_max
    → scan_segment c (frames c payloads) sequence m repair
      ≡ ok (record { valid_bytes = length (frames c payloads); truncated_tail = false })
unfolding scan_segment
scan_segment-frames c m payloads sequence repair ps fits =
    let e = append-nil (frames c payloads) in
    ap (λ (l : List ℕ). scan_segment c l sequence m repair) (sym e)
    ∙ scan_segment-frames_rest c m payloads [] sequence repair (omega arith) ps
        (omega (arith, ap length e))
