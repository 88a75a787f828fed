-- ===== src/Wal/Reader/Stream.antt =====
-- The records of whole segments, as a reader meets them.
use mathlib.Core.List.{append-nil}
use hoglet.Wal.Frame.RoundTrip.{length-encode_frame, IsPayload, read_record-encode_frame}
use hoglet.Wal.Scan.Frames.{frames, ArePayloads}
use hoglet.Wal.Frame.{record_header_bytes, encode_frame, read_record}
use hoglet.Wal.Reader.{
  SealedRecords, WalRecord, Codec, start_of, at_offset, unread, next_start, record_of, Segment,
  next_record, next_record_loop, after_record, or_cursor,
}
use hoglet.Wal.Batch.{WalCursor, CapturedBatch}
use hoglet.Wal.Writer.Append.{Contents, files, frames-append}
use hoglet.Prelude.{
  ℕ, ◌+◌, ◌≡◌, refl, ap, ◌⊎◌, inl, inr, false, Option, none, some, List, [], ◌∷◌, ◌++◌, arith,
  length, drop, All, length-append, drop-append, ok,
}

-- The records of payloads that stand in a segment from `offset` on.
unfoldable pub payload_records : Codec → ℕ → ℕ → List (List ℕ) → List WalRecord
payload_records c sequence offset [] = []
payload_records c sequence offset (p ∷ ps) =
    let more = payload_records c sequence (offset + (record_header_bytes + length p)) ps in
    elim (c.from_slice p) [
      | none ↦ more
      | some batch ↦
          record_of (at_offset sequence offset) batch (record_header_bytes + length p) ∷ more
    ]

unfoldable pub stream : Codec → Contents → List WalRecord
unfolding payload_records
stream c [] = []
stream c (s ∷ more) = payload_records c s.0 0 s.1 ++ stream c more

abbrev pub AllLegal : Codec → ℕ → Contents → Type 0
AllLegal c m = All (λ s. ArePayloads c m s.1)

-- A reader that is in the middle of the segment `sequence`, behind the records `passed` and before `ps`,
-- with the segments `more` after it. `end` is the cursor behind the last segment.
pub record Stands (c : Codec) (m : ℕ) (end : WalCursor) (r : SealedRecords) (sequence : ℕ)
    (passed ps : List (List ℕ)) (more : Contents) : Type 0 where
  pub limit : r.max_record_bytes ≡ m
  pub terminal : r.terminal_cursor ≡ some end
  pub unfinished : r.is_finished ≡ false
  pub segments : r.segments ≡ (sequence, frames c (passed ++ ps)) ∷ files c more
  pub cursor : r.next_cursor ≡ at_offset sequence (length (frames c passed))
  pub position : (r.file ≡ none) ⊎ (r.file ≡ some (frames c ps))
  pub legal : ArePayloads c m ps
  pub more_legal : AllLegal c m more

pub record Ended (m : ℕ) (end : WalCursor) (r : SealedRecords) : Type 0 where
  pub limit : r.max_record_bytes ≡ m
  pub terminal : r.terminal_cursor ≡ some end
  pub unfinished : r.is_finished ≡ false
  pub segments : r.segments ≡ []
  pub cursor : r.next_cursor ≡ end

-- Where a reader goes behind a segment: the start of the next one, or the end.
abbrev pub behind : Codec → SealedRecords → WalCursor → Contents → SealedRecords
behind c r end [] = record r { segments = []; file = none; next_cursor = end }
behind c r end (s ∷ more) = record r {
  segments = files c (s ∷ more);
  file = none;
  next_cursor = at_offset s.0 0;
}

-- The bytes that a reader finds, and the cursor that it takes them to start at.
start_of-Stands :
    (c : Codec) (m : ℕ) (end : WalCursor) (r : SealedRecords) (q : ℕ) (passed ps : List (List ℕ))
    (more : Contents)
    → Stands c m end r q passed ps more
    → (start_of (q, frames c (passed ++ ps)) r ≡ at_offset q (length (frames c passed)))
      × (unread (q, frames c (passed ++ ps)) r ≡ frames c ps)
unfolding start_of unread
start_of-Stands c m end r q passed ps more h = elim h.position [
  | inl closed ↦ (
    ground (arith, h.cursor),
    ground
        (arith, h.cursor, frames-append c passed ps, drop-append (frames c passed) (frames c ps)),
  )
  | inr opened ↦ (ground (arith, h.cursor), ground arith)
]

next_start-files :
    (c : Codec) (end fallback : WalCursor) (r : SealedRecords) (more : Contents)
    → r.terminal_cursor ≡ some end
    → record r {
      segments = files c more;
      file = none;
      next_cursor = next_start (files c more) r.terminal_cursor fallback;
    }
      ≡ behind c r end more
unfolding next_start
next_start-files c end fallback r [] t =
    ap
      (λ (o : Option WalCursor). record r {
        segments = [];
        file = none;
        next_cursor = or_cursor o fallback;
      })
      t
next_start-files c end fallback r (s ∷ more) t = refl

module _ (c : Codec) (s : Segment) (ss : List Segment) (r : SealedRecords) where
  loop_some :
      (batch : CapturedBatch) (n : ℕ)
      → read_record c (unread s r) s.0 (start_of s r).byte_offset r.max_record_bytes
        ≡ ok (some (batch, n))
      → next_record_loop c (s ∷ ss) r ≡ (
        after_record s ss r
            (at_offset (start_of s r).segment ((start_of s r).byte_offset + n))
            (drop n (unread s r)),
        ok (some (record_of (start_of s r) batch n)),
      )
  unfolding next_record_loop
  loop_some batch n e = rw (next_record_loop, e)

  loop_none :
      read_record c (unread s r) s.0 (start_of s r).byte_offset r.max_record_bytes ≡ ok none
      → next_record_loop c (s ∷ ss) r
        ≡ next_record_loop c ss (record r {
          segments = ss;
          file = none;
          next_cursor = next_start ss r.terminal_cursor (start_of s r);
        })
  unfolding next_record_loop
  loop_none e = rw (next_record_loop, e)

pub length-frames_snoc :
    (c : Codec) (ps : List (List ℕ)) (p : List ℕ)
    → length (frames c (ps ++ p ∷ [])) ≡ length (frames c ps) + (record_header_bytes + length p)
unfolding frames
length-frames_snoc c [] p =
    rw (append-nil (encode_frame c p)) (omega (arith, length-encode_frame c p))
length-frames_snoc c (q ∷ ps) p = omega (
  arith,
  length-append (encode_frame c q) (frames c (ps ++ p ∷ [])),
  length-append (encode_frame c q) (frames c ps),
  length-frames_snoc c ps p,
)

drop-frames :
    (c : Codec) (p : List ℕ) (ps : List (List ℕ))
    → drop (record_header_bytes + length p) (frames c (p ∷ ps)) ≡ frames c ps
unfolding frames
drop-frames c p ps = rw (← length-encode_frame c p) (drop-append (encode_frame c p) (frames c ps))

module _ (c : Codec) (m : ℕ) (end : WalCursor) (r : SealedRecords) (q : ℕ) (passed : List (List ℕ))
    (more : Contents) where
  -- The state behind the first of the records that are left.
  unfoldable pub behind_first : List ℕ → List (List ℕ) → SealedRecords
  behind_first p [] = behind c r end more
  behind_first p (p' ∷ ps) = record r {
    segments = (q, frames c (passed ++ p ∷ p' ∷ ps)) ∷ files c more;
    file = some (frames c (p' ∷ ps));
    next_cursor = at_offset q (length (frames c passed) + (record_header_bytes + length p));
  }

  after_record-frames :
      (p : List ℕ) (ps : List (List ℕ))
      → r.terminal_cursor ≡ some end
      → after_record
          (q, frames c (passed ++ p ∷ ps))
          (files c more)
          r
          (at_offset q (length (frames c passed) + (record_header_bytes + length p)))
          (frames c ps)
        ≡ behind_first p ps
  unfolding after_record behind_first frames encode_frame
  after_record-frames p [] t = next_start-files c end _ r more t
  after_record-frames p (p' ∷ ps) t = refl

  pub next_record-first :
      (p : List ℕ) (ps : List (List ℕ)) (batch : CapturedBatch)
      → Stands c m end r q passed (p ∷ ps) more
      → IsPayload c m p batch
      → next_record c r ≡ (
        behind_first p ps,
        ok (
            some (
              record_of
                (at_offset q (length (frames c passed)))
                batch
                (record_header_bytes + length p))),
      )
  unfolding next_record frames behind_first
  next_record-first p ps batch h legal =
      let (starts, left) = start_of-Stands c m end r q passed (p ∷ ps) more h in
      let reads : read_record c (frames c (p ∷ ps)) q (length (frames c passed)) r.max_record_bytes
          ≡ ok (some (batch, record_header_bytes + length p)) =
        rw (h.limit, ← length-encode_frame c p)
          (read_record-encode_frame c m p (frames c ps) batch q (length (frames c passed)) legal) in
      rw (
        h.segments,
        loop_some c (q, frames c (passed ++ p ∷ ps)) (files c more) r batch
            (record_header_bytes + length p) (rw (starts, left) reads),
        starts,
        left,
        drop-frames c p ps,
        after_record-frames p ps h.terminal,
      )

  pub next_record-passed :
      Stands c m end r q passed [] more → next_record c r ≡ next_record c (behind c r end more)
  unfolding next_record frames read_record
  next_record-passed h =
      let (starts, left) = start_of-Stands c m end r q passed [] more h in
      rw
        (
          h.segments,
          loop_none c (q, frames c (passed ++ [])) (files c more) r (rw left refl),
          next_start-files c end (start_of (q, frames c (passed ++ [])) r) r more h.terminal,
        )
        (segments_of more)
    where
      segments_of :
          (rest : Contents)
          → next_record_loop c (files c rest) (behind c r end rest)
            ≡ next_record_loop c (behind c r end rest).segments (behind c r end rest)
      segments_of [] = refl
      segments_of (s ∷ rest) = refl
