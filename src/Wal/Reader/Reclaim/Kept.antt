-- ===== src/Wal/Reader/Reclaim/Kept.antt =====
-- What a reclamation leaves.
use hoglet.Wal.Reader.Reclaim.Removed.{covered-all, remove_files-Removes, Removes, covered-before}
use hoglet.Wal.Frame.RoundTrip.{length-encode_frame}
use hoglet.Wal.Frame.{encode_frame}
use hoglet.Wal.Scan.Frames.{frames}
use hoglet.Wal.Reader.Publication.{IsListed, end_of, active_segments, IsListed-IsSequenced}
use hoglet.Wal.Reader.{at_offset, validate_cursor}
use hoglet.Wal.Writer.{WriteAheadLog}
use mathlib.Core.Path.{subst}
use mathlib.Core.List.{append-nil, append_assoc}
use hoglet.Wal.Layout.{SegmentLayout, discover_segment_layout}
use hoglet.Wal.Reader.Resume.{valid_bytes_of, validate_cursor-place}
use hoglet.Wal.Layout.{sequences_of, Segment}
use hoglet.Wal.Reader.Reclaim.{remove_files, covered, remove_covered, reclaim_through_once}
use hoglet.Wal.Layout.Contiguous.{IsRun}
use hoglet.Wal.Codec.{Codec}
use hoglet.Wal.Reader.Position.{Place, at_end, within, IsPlace, cursor_of}
use hoglet.Wal.Batch.{WalError, WalCursor, IoError, WalConfig}
use hoglet.Wal.Writer.Append.{Contents, files, frames-append}
use hoglet.Prelude.{
  ℕ, ◌+◌, ◌<◌, ◌≡◌, refl, sym, ap, ◌∙◌, Option, List, [], ◌∷◌, ◌++◌, arith, length, length-append,
  Result, ok,
}

-- A place that is not at the end of a segment.
abbrev pub IsNormal : Place → Type 0
IsNormal at_end = Unit
IsNormal (within q passed ps more) = 0 < length ps

-- The sealed segments before a place, and from it on.
abbrev pub before_place : (sealed : Contents) (place : Place) → IsPlace sealed place → Contents
before_place sealed at_end p = sealed
before_place sealed (within q passed ps more) p = p.0

abbrev pub from_place : Place → Contents
from_place at_end = []
from_place (within q passed ps more) = (q, passed ++ ps) ∷ more

-- What is left of the sealed segments, and the place in it.
pub record Keeps (c : Codec) (sealed : Contents) (place : Place) (kept : List Segment)
    : Type 0 where
  pub gone : Contents
  pub stay : Contents
  pub split : sealed ≡ gone ++ stay
  pub files_left : kept ≡ files c stay
  pub place_stays : IsPlace stay place

module _ (c : Codec) where
  remove_covered-left :
      (reclaim sealed : List Segment) (answers : List (Option IoError)) (synced : Option IoError)
      → (remove_covered reclaim sealed answers synced).0 ≡ (remove_files reclaim answers sealed).0
  unfolding remove_covered
  remove_covered-left reclaim sealed answers synced = refl

  reclaimed-files :
      (config : WalConfig) (checkpoint : WalCursor) (sealed active : List Segment)
      (layout : SegmentLayout) (valid_bytes : ℕ) (answers : List (Option IoError))
      (synced : Option IoError)
      → discover_segment_layout sealed active ≡ ok layout
      → validate_cursor c layout checkpoint config.max_record_bytes ≡ ok valid_bytes
      → reclaim_through_once c config checkpoint sealed active answers synced
        ≡ remove_covered (covered checkpoint valid_bytes layout.sealed) sealed answers synced
  unfolding reclaim_through_once
  reclaimed-files config checkpoint sealed active layout valid_bytes answers synced e v =
      rw (reclaim_through_once, e, v)

  shorter :
      (passed : List (List ℕ)) (p : List ℕ) (ps : List (List ℕ))
      → length (frames c passed) < length (frames c (passed ++ p ∷ ps))
  unfolding frames
  shorter passed p ps = omega (
    arith,
    ap length (frames-append c passed (p ∷ ps)),
    length-append (frames c passed) (frames c (p ∷ ps)),
    length-append (encode_frame c p) (frames c ps),
    length-encode_frame c p,
  )

  place_stays-from :
      (stay : Contents) (sealed : Contents) (place : Place)
      → IsPlace sealed place
      → IsPlace (stay ++ from_place place) place
  place_stays-from stay sealed at_end p = tt
  place_stays-from stay sealed (within q passed ps more) p = (stay, refl)

  Removes-Keeps :
      (sealed before : Contents) (place : Place) (out : List Segment × Result (Unit {0}) WalError)
      → IsPlace sealed place
      → sealed ≡ before ++ from_place place
      → Removes c before (from_place place) out
      → Keeps c sealed place out.0
  Removes-Keeps sealed before place out p e (gone, stay, split, left, whole) = record {
    gone = gone;
    stay = stay ++ from_place place;
    split = e ∙ (ap (λ b. b ++ from_place place) split ∙ append_assoc gone stay (from_place place));
    files_left = left;
    place_stays = place_stays-from stay sealed place p;
  }

  covered-place :
      (sealed : Contents) (active : List (List ℕ)) (a f : ℕ) (place : Place)
      → (p : IsPlace sealed place) → IsNormal place
      → IsRun f (sequences_of (files c sealed))
      → a ≡ f + length sealed
      → (before : Contents) × (sealed ≡ before ++ from_place place)
        × (covered
              (cursor_of c (at_offset a 0) place)
              (valid_bytes_of c active place)
              (files c sealed)
            ≡ files c before)
  covered-place sealed active a f at_end p n r e =
      (sealed, sym (append-nil sealed), covered-all c (at_offset a 0) _ f sealed r (omega arith))
  covered-place sealed active a f (within q passed (p' ∷ ps) more) (before, e) n r a_is = (
    before,
    e,
    rw e (
        covered-before c _ _ f q before more (passed ++ p' ∷ ps)
          (subst (λ s. IsRun f (sequences_of (files c s))) e r) refl (shorter passed p' ps)),
  )
  covered-place sealed active a f (within q passed [] more) p n r e = absurd (omega arith)

  -- A reclamation through a committed checkpoint between two sealed records or at the end of them,
  -- whatever removal or synchronisation fails, leaves sealed segments that are the newest ones, and the
  -- checkpoint is still a place among them: no segment that holds a record behind it is removed.
  pub reclaim_through_once-Keeps :
      (log : WriteAheadLog) (sealed : Contents) (active : List (List ℕ)) (place : Place)
      (answers : List (Option IoError)) (synced : Option IoError)
      → IsListed c log sealed active
      → IsPlace sealed place
      → IsNormal place
      → Keeps c sealed place
          (reclaim_through_once c log.config
            (cursor_of c (end_of log) place)
            log.sealed
            (active_segments log)
            answers
            synced).0
  reclaim_through_once-Keeps log sealed active place answers synced h p n =
      let s = IsListed-IsSequenced c log sealed active h in
      let (before, split, removed) =
        covered-place sealed active log.active.sequence s.first place p n s.run s.newest in
      let valid =
        validate_cursor-place c log.config.max_record_bytes log.active.sequence sealed active
          s.first s.run s.newest h.holds.sealed_legal h.holds.active_legal h.sealed_fits
          h.active_fits place p in
      let steps =
        reclaimed-files log.config (cursor_of c (end_of log) place) (files c sealed)
          ((log.active.sequence, frames c active) ∷ []) _ _ answers synced
          (rw (h.holds.sealed_files, h.holds.active_file) at h.accepted) valid in
      rw
        (
          h.holds.sealed_files,
          h.holds.active_file,
          steps,
          removed,
          remove_covered-left (files c before) (files c sealed) answers synced,
        )
        (rw split (
          Removes-Keeps (before ++ from_place place) before place _ (rw split at p) refl
            (remove_files-Removes c s.first before (from_place place) answers (rw split at s.run))))
