-- ===== src/Wal/Reader/Position.antt =====
-- Where a reader stands in a log of whole segments, and what its next call yields.
use hoglet.Wal.Frame.{record_header_bytes}
use mathlib.Core.List.{append_assoc}
use hoglet.Wal.Scan.Frames.{frames}
use hoglet.Wal.Reader.{
  SealedRecords, WalRecord, next_record, Codec, at_offset, next_record_loop, record_of,
}
use hoglet.Wal.Reader.Stream.{
  Stands, Ended, payload_records, stream, AllLegal, behind_first, behind, length-frames_snoc,
  next_record-passed, next_record-first,
}
use hoglet.Wal.Batch.{WalCursor, CapturedBatch}
use hoglet.Wal.Writer.Append.{Contents}
use hoglet.Prelude.{
  ℕ, ◌+◌, ◌≡◌, refl, sym, ◌∙◌, inl, inr, false, none, some, List, [], ◌∷◌, ◌++◌, length, ok,
}

-- Behind the last segment, or in the segment `sequence`, with the records `passed` behind it.
pub data Place : Type 0 where
  at_end : Place
  within : (sequence : ℕ) (passed ps : List (List ℕ)) (more : Contents) → Place

abbrev pub place_behind : Contents → Place
place_behind [] = at_end
place_behind ((q, ps) ∷ more) = within q [] ps more

abbrev pub place_after : ℕ → List (List ℕ) → List ℕ → List (List ℕ) → Contents → Place
place_after q passed p [] more = place_behind more
place_after q passed p (p' ∷ ps) more = within q (passed ++ p ∷ []) (p' ∷ ps) more

-- The records that are left.
unfoldable pub records_left : Codec → Place → List WalRecord
unfolding payload_records stream
records_left c at_end = []
records_left c (within q passed ps more) =
    payload_records c q (length (frames c passed)) ps ++ stream c more

abbrev pub cursor_of : Codec → WalCursor → Place → WalCursor
cursor_of c end at_end = end
cursor_of c end (within q passed ps more) = at_offset q (length (frames c passed))

-- The place is one of the log whose sealed segments are `sealed`.
abbrev pub IsPlace : Contents → Place → Type 0
IsPlace sealed at_end = Unit
IsPlace sealed (within q passed ps more) =
    (before : Contents) × (sealed ≡ before ++ (q, passed ++ ps) ∷ more)

place_behind-IsPlace :
    (before : Contents) (s : ℕ × List (List ℕ)) (more : Contents)
    → IsPlace (before ++ s ∷ more) (place_behind more)
place_behind-IsPlace before s [] = tt
place_behind-IsPlace before s (t ∷ more) =
    (before ++ s ∷ [], sym (append_assoc before (s ∷ []) (t ∷ more)))

place_after-IsPlace :
    (sealed : Contents) (q : ℕ) (passed : List (List ℕ)) (p : List ℕ) (ps : List (List ℕ))
    (more : Contents)
    → IsPlace sealed (within q passed (p ∷ ps) more)
    → IsPlace sealed (place_after q passed p ps more)
place_after-IsPlace sealed q passed p [] more (before, e) =
    rw e (place_behind-IsPlace before (q, passed ++ p ∷ []) more)
place_after-IsPlace sealed q passed p (p' ∷ ps) more (before, e) =
    (before, rw (append_assoc passed (p ∷ []) (p' ∷ ps)) e)

module _ (c : Codec) (m : ℕ) (end : WalCursor) where
  abbrev pub IsAt : SealedRecords → Place → Type 0
  IsAt r at_end = Ended m end r
  IsAt r (within q passed ps more) = Stands c m end r q passed ps more

  pub behind-IsAt :
      (r : SealedRecords) (more : Contents)
      → r.max_record_bytes ≡ m
      → r.terminal_cursor ≡ some end
      → r.is_finished ≡ false
      → AllLegal c m more
      → IsAt (behind c r end more) (place_behind more)
  behind-IsAt r [] limit terminal unfinished legal = record {
    limit = limit;
    terminal = terminal;
    unfinished = unfinished;
    segments = refl;
    cursor = refl;
  }
  behind-IsAt r ((q, ps) ∷ more) limit terminal unfinished legal = record {
    limit = limit;
    terminal = terminal;
    unfinished = unfinished;
    segments = refl;
    cursor = unfold frames in refl;
    position = inl refl;
    legal = legal.0;
    more_legal = legal.1;
  }

  behind_first-IsAt :
      (r : SealedRecords) (q : ℕ) (passed : List (List ℕ)) (p : List ℕ) (ps : List (List ℕ))
      (more : Contents)
      → Stands c m end r q passed (p ∷ ps) more
      → IsAt (behind_first c m end r q passed more p ps) (place_after q passed p ps more)
  unfolding behind_first
  behind_first-IsAt r q passed p [] more h =
      behind-IsAt r more h.limit h.terminal h.unfinished h.more_legal
  behind_first-IsAt r q passed p (p' ∷ ps) more h = record {
    limit = h.limit;
    terminal = h.terminal;
    unfinished = h.unfinished;
    segments = rw (append_assoc passed (p ∷ []) (p' ∷ ps));
    cursor = rw (length-frames_snoc c passed p);
    position = inr refl;
    legal = h.legal.1;
    more_legal = h.more_legal;
  }

  -- What the next call yields, when `xs` are the records that are left.
  abbrev pub Yields : Contents → SealedRecords → List WalRecord → Type 0
  Yields sealed r [] =
      (r' : SealedRecords) × (next_record c r ≡ (r', ok none)) × (r'.next_cursor ≡ end)
  Yields sealed r (x ∷ xs) =
      (r' : SealedRecords) × (next_record c r ≡ (r', ok (some x)))
      × (place : Place) × IsAt r' place
      × IsPlace sealed place
      × (records_left c place ≡ xs)

  Ended-Yields : (sealed : Contents) (r : SealedRecords) → Ended m end r → Yields sealed r []
  unfolding next_record next_record_loop
  Ended-Yields sealed r h = (record r { segments = [] }, rw h.segments, h.cursor)

  Yields-eq :
      (sealed : Contents) (r r' : SealedRecords) (xs : List WalRecord)
      → next_record c r ≡ next_record c r'
      → Yields sealed r' xs
      → Yields sealed r xs
  Yields-eq sealed r r' [] e (s, n, p) = (s, e ∙ n, p)
  Yields-eq sealed r r' (x ∷ xs) e (s, n, place, at, known, left) =
      (s, e ∙ n, place, at, known, left)

  records_left-place_after :
      (q : ℕ) (passed : List (List ℕ)) (p : List ℕ) (ps : List (List ℕ)) (more : Contents)
      → records_left c (place_after q passed p ps more)
        ≡ payload_records c q (length (frames c passed) + (record_header_bytes + length p)) ps
          ++ stream c more
  unfolding records_left frames
  records_left-place_after q passed p [] [] = refl
  records_left-place_after q passed p [] (s ∷ more) = refl
  records_left-place_after q passed p (p' ∷ ps) more = rw (length-frames_snoc c passed p)

  records_left-first :
      (q : ℕ) (passed : List (List ℕ)) (p : List ℕ) (ps : List (List ℕ)) (more : Contents)
      (batch : CapturedBatch)
      → c.from_slice p ≡ some batch
      → records_left c (within q passed (p ∷ ps) more)
        ≡ record_of (at_offset q (length (frames c passed))) batch (record_header_bytes + length p)
          ∷ (payload_records c q (length (frames c passed) + (record_header_bytes + length p)) ps
              ++ stream c more)
  unfolding records_left
  records_left-first q passed p ps more batch e = rw (payload_records, e)

  pub Stands-Yields :
      (sealed : Contents) (r : SealedRecords) (q : ℕ) (passed ps : List (List ℕ)) (more : Contents)
      → Stands c m end r q passed ps more
      → IsPlace sealed (within q passed ps more)
      → Yields sealed r (records_left c (within q passed ps more))
  unfolding records_left frames
  Stands-Yields sealed r q passed [] [] h place =
      Yields-eq sealed r _ [] (next_record-passed c m end r q passed [] h)
        (Ended-Yields sealed _ (behind-IsAt r [] h.limit h.terminal h.unfinished tt))
  Stands-Yields sealed r q passed [] ((q', ps') ∷ more) h (before, e) =
      Yields-eq sealed r _ _ (next_record-passed c m end r q passed ((q', ps') ∷ more) h) (
        Stands-Yields sealed (behind c r end ((q', ps') ∷ more)) q' [] ps' more
          (behind-IsAt r ((q', ps') ∷ more) h.limit h.terminal h.unfinished h.more_legal)
          (rw e (place_behind-IsPlace before (q, passed ++ []) ((q', ps') ∷ more))))
  Stands-Yields sealed r q passed (p ∷ ps) more h place =
      let (batch, legal) = h.legal.0 in
      rw (records_left-first q passed p ps more batch legal.decoded) (
        behind_first c m end r q passed more p ps,
        next_record-first c m end r q passed more p ps batch h legal,
        place_after q passed p ps more,
        behind_first-IsAt r q passed p ps more h,
        place_after-IsPlace sealed q passed p ps more place,
        records_left-place_after q passed p ps more,
      )

  -- The next call yields the first of the records that are left, and leaves the reader before the
  -- others.
  pub next_record-Yields :
      (sealed : Contents) (r : SealedRecords) (place : Place)
      → IsAt r place
      → IsPlace sealed place
      → Yields sealed r (records_left c place)
  next_record-Yields sealed r at_end h p = unfold records_left in Ended-Yields sealed r h
  next_record-Yields sealed r (within q passed ps more) h p =
      Stands-Yields sealed r q passed ps more h p
