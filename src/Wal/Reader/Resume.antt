-- ===== src/Wal/Reader/Resume.antt =====
-- A reader that is opened at the cursor of a place stands there.
use hoglet.Wal.Recovery.{FitsU64}
use mathlib.Core.Path.{subst}
use hoglet.Wal.Cursor.Boundary.{is_record_boundary-frames}
use hoglet.Wal.Scan.Frames.{ArePayloads, frames, scan_segment-frames}
use hoglet.Wal.Layout.Contiguous.{IsRun}
use hoglet.Wal.Cursor.{validate_in_file, find_segment, validate_cursor, segment_file}
use hoglet.Wal.Reader.{SealedRecords, Codec, segments_from, at_offset, open_once}
use hoglet.Wal.Reader.Position.{Place, at_end, within, cursor_of, IsPlace, IsAt}
use hoglet.Wal.Reader.Stream.{AllLegal}
use hoglet.Wal.Batch.{WalCursor, u64_max}
use hoglet.Wal.Writer.Append.{Contents, files, frames-append}
use hoglet.Wal.Layout.{SegmentLayout, sequences_of, discover_segment_layout}
use hoglet.Prelude.{
  ℕ, ◌+◌, ◌≤◌, ◌≡◌, refl, ap, ◌∙◌, inl, true, false, none, some, List, [], ◌∷◌, ◌++◌, arith, ltb,
  nat_beq, nat_beq_iff, length, All, length-append, ok,
}

-- The sequences of a run, up to a segment and from it on.
nat_beq_refl : (a : ℕ) → nat_beq a a ≡ true
nat_beq_refl a = (nat_beq_iff a a).1 refl

segment_file-sealed :
    (layout : SegmentLayout) (q : ℕ) (file : List ℕ)
    → find_segment q layout.sealed ≡ some file
    → segment_file layout q ≡ some file
unfolding segment_file
segment_file-sealed layout q file e = rw (segment_file, e)

segment_file-active :
    (layout : SegmentLayout) (q : ℕ) (file : List ℕ)
    → find_segment q layout.sealed ≡ none
    → layout.active ≡ some (q, file)
    → segment_file layout q ≡ some file
unfolding segment_file
segment_file-active layout q file e active = rw (segment_file, e, active, nat_beq_refl q)

module _ (c : Codec) where
  pub run_at :
      (f q : ℕ) (before more : Contents) (ps : List (List ℕ))
      → IsRun f (sequences_of (files c (before ++ (q, ps) ∷ more)))
      → (q ≡ f + length before) × IsRun q (sequences_of (files c ((q, ps) ∷ more)))
  run_at f q [] more ps (e, r) = (omega arith, (refl, rw e r))
  run_at f q (b ∷ before) more ps (e, r) =
      let (at, run) = run_at (f + 1) q before more ps r in (omega arith, run)

  find_segment-run :
      (f q : ℕ) (before more : Contents) (ps : List (List ℕ))
      → IsRun f (sequences_of (files c (before ++ (q, ps) ∷ more)))
      → find_segment q (files c (before ++ (q, ps) ∷ more)) ≡ some (frames c ps)
  unfolding find_segment
  find_segment-run f q [] more ps r = ground arith
  find_segment-run f q (b ∷ before) more ps r =
      ground
        (arith, run_at f q (b ∷ before) more ps r, find_segment-run (f + 1) q before more ps r.1)

  find_segment-behind :
      (f q : ℕ) (sealed : Contents)
      → IsRun f (sequences_of (files c sealed))
      → f + length sealed ≤ q
      → find_segment q (files c sealed) ≡ none
  unfolding find_segment
  find_segment-behind f q [] r h = refl
  find_segment-behind f q (s ∷ sealed) r h =
      ground (arith, find_segment-behind (f + 1) q sealed r.1)

  segments_from-whole :
      (f q : ℕ) (sealed : Contents)
      → IsRun f (sequences_of (files c sealed))
      → q ≤ f
      → segments_from q (files c sealed) ≡ files c sealed
  segments_from-whole f q [] r h = refl
  segments_from-whole f q (s ∷ sealed) r h =
      ground (arith, segments_from-whole (f + 1) q sealed r.1)

  segments_from-run :
      (f q : ℕ) (before more : Contents) (ps : List (List ℕ))
      → IsRun f (sequences_of (files c (before ++ (q, ps) ∷ more)))
      → segments_from q (files c (before ++ (q, ps) ∷ more)) ≡ files c ((q, ps) ∷ more)
  segments_from-run f q [] more ps r = segments_from-whole f q ((q, ps) ∷ more) r (omega arith)
  segments_from-run f q (b ∷ before) more ps r =
      ground
        (arith, run_at f q (b ∷ before) more ps r, segments_from-run (f + 1) q before more ps r.1)

  segments_from-behind :
      (f q : ℕ) (sealed : Contents)
      → IsRun f (sequences_of (files c sealed))
      → f + length sealed ≤ q
      → segments_from q (files c sealed) ≡ []
  segments_from-behind f q [] r h = refl
  segments_from-behind f q (s ∷ sealed) r h =
      ground (arith, segments_from-behind (f + 1) q sealed r.1)

  pub All-split {κ} :
      {A : Type 0} (P : A → Type κ) (front back : List A)
      → All P (front ++ back)
      → All P front × All P back
  All-split P [] back h = (tt, h)
  All-split P (x ∷ front) back (h, rest) = let (l, r) = All-split P front back rest in ((h, l), r)

  -- Between the whole records of a file a cursor is valid, and the whole file is.
  validate_in_file-frames :
      (m q : ℕ) (passed ps : List (List ℕ))
      → ArePayloads c m (passed ++ ps)
      → length (frames c (passed ++ ps)) ≤ u64_max
      → validate_in_file c (frames c (passed ++ ps)) (at_offset q (length (frames c passed))) m
        ≡ ok (length (frames c (passed ++ ps)))
  unfolding validate_in_file
  validate_in_file-frames m q passed ps legal fits =
      let (l, r) = All-split _ passed ps legal in
      let near : ltb (length (frames c (passed ++ ps))) (length (frames c passed)) ≡ false =
        ground (
          arith,
          ap length (frames-append c passed ps),
          length-append (frames c passed) (frames c ps),
        ) in
      rw (
        scan_segment-frames c m (passed ++ ps) q false legal fits,
        near,
        is_record_boundary-frames c m passed ps q l fits,
      )

  validate_cursor-found :
      (layout : SegmentLayout) (cursor : WalCursor) (m : ℕ) (file : List ℕ)
      → segment_file layout cursor.segment ≡ some file
      → validate_cursor c layout cursor m ≡ validate_in_file c file cursor m
  unfolding validate_cursor
  validate_cursor-found layout cursor m file e = rw (validate_cursor, e)

  -- The bytes of the segment that a place is in.
  abbrev pub valid_bytes_of : List (List ℕ) → Place → ℕ
  valid_bytes_of active at_end = length (frames c active)
  valid_bytes_of active (within q passed ps more) = length (frames c (passed ++ ps))

  module _ (m a : ℕ) (sealed : Contents) (active : List (List ℕ)) (f : ℕ)
      (run : IsRun f (sequences_of (files c sealed))) (newest : a ≡ f + length sealed)
      (legal : AllLegal c m sealed) (active_legal : ArePayloads c m active)
      (fits : FitsU64 c sealed) (active_fits : length (frames c active) ≤ u64_max) where
    abbrev pub layout : SegmentLayout
    layout = record { sealed = files c sealed; active = some (a, frames c active) }

    pub validate_cursor-place :
        (place : Place)
        → IsPlace sealed place
        → validate_cursor c layout (cursor_of c (at_offset a 0) place) m
          ≡ ok (valid_bytes_of active place)
    unfolding frames
    validate_cursor-place at_end p =
        validate_cursor-found layout (at_offset a 0) m (frames c active) (
          segment_file-active layout a (frames c active)
            (find_segment-behind f a sealed run (omega arith)) refl)
        ∙ validate_in_file-frames m a [] active active_legal active_fits
    validate_cursor-place (within q passed ps more) (before, e) =
        let located =
          find_segment-run f q before more (passed ++ ps)
            (subst (λ s. IsRun f (sequences_of (files c s))) e run) in
        let here = All-split _ before ((q, passed ++ ps) ∷ more) (subst (AllLegal c m) e legal) in
        let small = All-split _ before ((q, passed ++ ps) ∷ more) (subst (FitsU64 c) e fits) in
        validate_cursor-found layout (at_offset q (length (frames c passed))) m _
          (segment_file-sealed layout q (frames c (passed ++ ps)) (rw e located))
        ∙ validate_in_file-frames m q passed ps here.1.0 small.1.0

    -- The reader that is opened at a place.
    opened : Place → SealedRecords
    opened place = record {
      segments = segments_from (cursor_of c (at_offset a 0) place).segment (files c sealed);
      file = none;
      next_cursor = cursor_of c (at_offset a 0) place;
      terminal_cursor = some (at_offset a 0);
      max_record_bytes = m;
      is_finished = false;
    }

    opened-IsAt :
        (place : Place) → IsPlace sealed place → IsAt c m (at_offset a 0) (opened place) place
    unfolding opened
    opened-IsAt at_end p = record {
      limit = refl;
      terminal = refl;
      unfinished = refl;
      segments = segments_from-behind f a sealed run (omega arith);
      cursor = refl;
    }
    opened-IsAt (within q passed ps more) (before, e) =
        let run' = subst (λ s. IsRun f (sequences_of (files c s))) e run in
        let here =
          (All-split _ before ((q, passed ++ ps) ∷ more) (subst (AllLegal c m) e legal)).1 in
        record {
          limit = refl;
          terminal = refl;
          unfinished = refl;
          segments = rw e (segments_from-run f q before more (passed ++ ps) run');
          cursor = refl;
          position = inl refl;
          legal = (All-split _ passed ps here.0).1;
          more_legal = here.1;
        }

    pub open_once-IsAt :
        (place : Place)
        → IsPlace sealed place
        → discover_segment_layout (files c sealed) ((a, frames c active) ∷ []) ≡ ok layout
        → (r : SealedRecords) × (open_once c
              (files c sealed)
              ((a, frames c active) ∷ [])
              (cursor_of c (at_offset a 0) place)
              m
            ≡ ok r)
          × IsAt c m (at_offset a 0) r place
    unfolding open_once opened
    open_once-IsAt place p accepted =
        (opened place, rw (accepted, validate_cursor-place place p), opened-IsAt place p)
