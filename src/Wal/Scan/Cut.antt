-- ===== src/Wal/Scan/Cut.antt =====
-- What recovery keeps of an active segment that was cut anywhere.
use hoglet.Prelude.{
  ℕ, zero, suc, ◌+◌, ◌-◌, ◌≤◌, ◌<◌, min, ◌≡◌, refl, sym, ap, ◌∙◌, inl, inr, true, List, [], ◌∷◌,
  ◌++◌, arith, ltb, leb, if◌then◌else◌, leb→le, Bool-cases, length, take, length-append,
  length-take, take-append,
}
use mathlib.Core.List.{append-nil, append_assoc}
use hoglet.Wal.Batch.{CapturedBatch, u64_max}
use hoglet.Wal.Codec.{Codec}
use hoglet.Wal.Frame.{encode_frame}
use hoglet.Wal.Frame.RoundTrip.{IsPayload}
use hoglet.Wal.Scan.{scan_segment}
use hoglet.Wal.Scan.Frames.{frames, ArePayloads, scan_segment-frames}
use hoglet.Wal.Scan.Torn.{keeps, scan_segment-torn}

-- How many records lie whole within the first `n` bytes.
unfoldable pub whole : Codec → ℕ → List (List ℕ) → ℕ
whole c n [] = 0
whole c n (p ∷ ps) =
    let rest = whole c (n - length (encode_frame c p)) ps in
    if leb (length (encode_frame c p)) n then suc rest else 0

-- What is acknowledged lies whole within what is durable.
pub whole-append :
    (c : Codec) (n : ℕ) (acked more : List (List ℕ))
    → length (frames c acked) ≤ n
    → length acked ≤ whole c n (acked ++ more)
unfolding whole frames
whole-append c n [] more h = omega arith
whole-append c n (p ∷ ps) more h = ground (
  arith,
  length-append (encode_frame c p) (frames c ps),
  whole-append c (n - length (encode_frame c p)) ps more,
)

take-append_le :
    (n : ℕ) (xs ys : List ℕ) → length xs ≤ n → take n (xs ++ ys) ≡ xs ++ take (n - length xs) ys
take-append_le n [] ys h = let e : n - 0 ≡ n = omega arith in rw e
take-append_le zero (x ∷ xs) ys h = absurd (omega arith)
take-append_le (suc n) (x ∷ xs) ys h =
    let e : suc n - suc (length xs) ≡ n - length xs = omega arith in
    rw e (ap (◌∷◌ x) (take-append_le n xs ys (omega arith)))

take-append_lt : (n : ℕ) (xs ys : List ℕ) → n < length xs → take n (xs ++ ys) ≡ take n xs
take-append_lt n [] ys h = absurd (omega arith)
take-append_lt zero (x ∷ xs) ys h = refl
take-append_lt (suc n) (x ∷ xs) ys h = ap (◌∷◌ x) (take-append_lt n xs ys (omega arith))

-- A proper part of a record, or nothing.
data IsPart (c : Codec) (m room : ℕ) (part : List ℕ) : Type 0 where
  nothing : part ≡ [] → IsPart c m room part
  some_of :
      (p : List ℕ) (batch : CapturedBatch) (k : ℕ)
      → part ≡ take k (encode_frame c p)
      → k < length (encode_frame c p)
      → IsPayload c m p batch
      → length (encode_frame c p) ≤ room
      → IsPart c m room part

-- The first `n` bytes are `w` whole records and a proper part of the next one.
record Cut (c : Codec) (m n w : ℕ) (ps : List (List ℕ)) : Type 0 where
  part : List ℕ
  bytes : take n (frames c ps) ≡ frames c (take w ps) ++ part
  ended : IsPart c m (length (frames c ps) - length (frames c (take w ps))) part
  legal : ArePayloads c m (take w ps)

Cut-of :
    (c : Codec) (m n : ℕ) (ps : List (List ℕ)) → ArePayloads c m ps → Cut c m n (whole c n ps) ps
unfolding whole frames
Cut-of c m zero [] h = record { part = []; bytes = refl; ended = nothing refl; legal = tt }
Cut-of c m (suc n) [] h = record { part = []; bytes = refl; ended = nothing refl; legal = tt }
Cut-of c m n (p ∷ ps) ((batch, legal), others) =
    let f = encode_frame c p in
    let g = frames c ps in
    elim (Bool-cases (leb (length f) n)) [
      | inl fits ↦
          let r = Cut-of c m (n - length f) ps others in
          let kept = frames c (take (whole c (n - length f) ps) ps) in
          let e : length (f ++ g) - length (f ++ kept) ≡ length g - length kept =
            omega (arith, length-append f g, length-append f kept) in
          rw fits (record {
            part = r.part;
            bytes =
                take-append_le n f g (leb→le _ _ fits)
                ∙ ap (◌++◌ f) r.bytes
                ∙ sym (append_assoc f kept r.part);
            ended = rw e r.ended;
            legal = ((batch, legal), r.legal);
          })
      | inr not_whole ↦
          let short : n < length f = ground arith in
          rw not_whole (record {
            part = take n f;
            bytes = take-append_lt n f g short;
            ended = some_of p batch n refl short legal (omega (arith, length-append f g));
            legal = tt;
          })
    ]

-- The part that is dropped is not empty exactly when something was cut off.
part_length :
    (c : Codec) (m n w : ℕ) (ps : List (List ℕ)) (r : Cut c m n w ps)
    → length (frames c (take w ps)) + length r.part ≡ min n (length (frames c ps))
part_length c m n w ps r = omega (
  arith,
  ap length r.bytes,
  length-take n (frames c ps),
  length-append (frames c (take w ps)) r.part,
)

scan_part :
    (c : Codec) (m : ℕ) (kept : List (List ℕ)) (room : ℕ) (part : List ℕ) (sequence : ℕ)
    → IsPart c m room part
    → ArePayloads c m kept
    → length (frames c kept) + room ≤ u64_max
    → scan_segment c (frames c kept ++ part) sequence m true
      ≡ keeps (length (frames c kept)) (ltb 0 (length part))
scan_part c m kept room part sequence (nothing e) ps fits =
    rw (e, append-nil) (scan_segment-frames c m kept sequence true ps (omega arith))
scan_part c m kept room part sequence (some_of p batch k e small legal fits) ps room_fits =
    let f = encode_frame c p in
    let l : length (take k f) ≡ k = omega (arith, length-take k f) in
    rw (e, l)
      (scan_segment-torn c m kept p batch sequence k ps legal small
        (omega (arith, length-append (frames c kept) f)))

-- A crash may leave any number `n` of the bytes of an active segment: recovery then keeps exactly the
-- records that lie whole within the first `n` bytes, and reports a truncated tail exactly when these
-- records do not make up all of the bytes that were left.
pub scan_segment-cut :
    (c : Codec) (m n : ℕ) (payloads : List (List ℕ)) (sequence : ℕ)
    → ArePayloads c m payloads
    → length (frames c payloads) ≤ u64_max
    → scan_segment c (take n (frames c payloads)) sequence m true
      ≡ keeps (length (frames c (take (whole c n payloads) payloads))) (
          ltb
            (length (frames c (take (whole c n payloads) payloads)))
            (length (take n (frames c payloads))))
scan_segment-cut c m n payloads sequence ps fits =
    let w = whole c n payloads in
    let kept = take w payloads in
    let r = Cut-of c m n payloads ps in
    let l = part_length c m n w payloads r in
    let t = length-take n (frames c payloads) in
    let same : ltb 0 (length r.part)
        ≡ ltb (length (frames c kept)) (length (take n (frames c payloads))) =
      ground (arith, l, t) in
    ap (λ (b : List ℕ). scan_segment c b sequence m true) r.bytes
    ∙ scan_part c m kept _ r.part sequence r.ended r.legal (omega (arith, l))
    ∙ ap (keeps (length (frames c kept))) same

-- The bytes that recovery keeps are those of the records that it keeps.
pub take-frames-whole :
    (c : Codec) (m n : ℕ) (ps : List (List ℕ))
    → ArePayloads c m ps
    → take (length (frames c (take (whole c n ps) ps))) (take n (frames c ps))
      ≡ frames c (take (whole c n ps) ps)
take-frames-whole c m n ps h =
    let r = Cut-of c m n ps h in
    ap (take _) r.bytes ∙ take-append (frames c (take (whole c n ps) ps)) r.part

pub take-whole-legal :
    (c : Codec) (m n : ℕ) (ps : List (List ℕ))
    → ArePayloads c m ps
    → ArePayloads c m (take (whole c n ps) ps)
take-whole-legal c m n ps h = (Cut-of c m n ps h).legal
