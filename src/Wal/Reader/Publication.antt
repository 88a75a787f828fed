-- ===== src/Wal/Reader/Publication.antt =====
-- A publisher's windows over the log that the writer left.
use hoglet.Wal.Reader.Resume.{open_once-IsAt}
use mathlib.Core.Path.{subst}
use hoglet.Wal.Layout.Contiguous.{discover-IsContiguous, IsRun}
use hoglet.Wal.Scan.Frames.{frames}
use hoglet.Wal.Frame.{record_header_bytes}
use hoglet.Wal.Recovery.{FitsU64}
use hoglet.Wal.Reader.Delivery.{
  AreFramed, collect, total_framed, collect-Delivers, next_cursor-IsAt,
}
use hoglet.Wal.Writer.{WriteAheadLog}
use hoglet.Wal.Reader.Stream.{payload_records, stream}
use hoglet.Wal.Reader.{SealedRecords, WalRecord, Codec, at_offset, open_once}
use hoglet.Wal.Reader.Window.{PublicationWindow, read_window}
use hoglet.Wal.Reader.Position.{Place, at_end, within, records_left, IsPlace, cursor_of, IsAt}
use hoglet.Wal.Batch.{WalCursor, u64_max, WalConfig}
use hoglet.Wal.Writer.Append.{Contents, files, Holds, All-append}
use hoglet.Wal.Layout.{Segment, discover_segment_layout, sequences_of}
use hoglet.Prelude.{
  ℕ, suc, ◌+◌, ◌≤◌, ◌<◌, ◌≡◌, refl, sym, ap, ◌⊎◌, inl, inr, false, some, List, [], ◌∷◌, ◌++◌, arith,
  Option-cases, ◌==◌, nat_eq, string_eq, length, take, length-take, take-append-drop, ok, list_eq,
}

payload_records-AreFramed :
    (c : Codec) (q offset : ℕ) (ps : List (List ℕ)) → AreFramed (payload_records c q offset ps)
unfolding payload_records
payload_records-AreFramed c q offset [] = tt
payload_records-AreFramed c q offset (p ∷ ps) =
    let more = payload_records-AreFramed c q (offset + (record_header_bytes + length p)) ps in
    elim (Option-cases (c.from_slice p)) [
      | inl e ↦ rw (payload_records, e) more
      | inr (batch, e) ↦ rw (payload_records, e) (omega arith, more)
    ]

stream-AreFramed : (c : Codec) (sealed : Contents) → AreFramed (stream c sealed)
unfolding stream
stream-AreFramed c [] = tt
stream-AreFramed c (s ∷ sealed) =
    All-append _ (payload_records c s.0 0 s.1) (stream c sealed)
      (payload_records-AreFramed c s.0 0 s.1, stream-AreFramed c sealed)

records_left-AreFramed : (c : Codec) (place : Place) → AreFramed (records_left c place)
unfolding records_left
records_left-AreFramed c at_end = tt
records_left-AreFramed c (within q passed ps more) =
    All-append _ (payload_records c q (length (frames c passed)) ps) (stream c more)
      (payload_records-AreFramed c q (length (frames c passed)) ps, stream-AreFramed c more)

-- The cursor behind the last sealed segment: the start of the active one.
abbrev pub end_of : WriteAheadLog → WalCursor
end_of log = at_offset log.active.sequence 0

abbrev pub active_segments : WriteAheadLog → List Segment
active_segments log = (log.active.sequence, log.active.file) ∷ []

-- A log of whole records, whose directory is listed without a gap.
pub record IsListed (c : Codec) (log : WriteAheadLog) (sealed : Contents) (active : List (List ℕ))
    : Type 0 where
  pub holds : Holds c log sealed active
  pub sealed_fits : FitsU64 c sealed
  pub active_fits : length (frames c active) ≤ u64_max
  pub accepted :
      discover_segment_layout log.sealed (active_segments log)
      ≡ ok (record { sealed = log.sealed; active = some (log.active.sequence, log.active.file) })

-- From `place` on a window delivers `ys`, and its checkpoint is `place'`.
pub record Published (c : Codec) (log : WriteAheadLog) (sealed : Contents) (place : Place)
    (max_bytes calls : ℕ) : Type 0 where
  pub window : PublicationWindow
  pub last : PublicationWindow
  pub ys : List WalRecord
  pub place' : Place
  pub opens :
      read_window c log.config log.sealed
        (active_segments log)
        (cursor_of c (end_of log) place)
        max_bytes
      ≡ ok window
  pub collects : collect c calls window ≡ some (last, ok ys)
  pub checkpoint : last.checkpoint ≡ cursor_of c (end_of log) place'
  pub known : IsPlace sealed place'
  pub split : ys ++ records_left c place' ≡ records_left c place
  pub bounded : (total_framed ys ≤ max_bytes) ⊎ (length ys ≤ 1)
  pub progress : 0 < length (records_left c place) → 0 < length ys

length-files : (c : Codec) (sealed : Contents) → length (files c sealed) ≡ length sealed
length-files c [] = refl
length-files c (s ∷ sealed) = ap suc (length-files c sealed)

within_bound :
    (count : ℕ) (ys xs : List WalRecord) (max_bytes : ℕ)
    → ys ≡ take count xs
    → (count ≡ 0) ⊎ (total_framed ys + 0 ≤ max_bytes) ⊎ ((Path ℕ 0 0) × (count ≡ 1))
    → (total_framed ys ≤ max_bytes) ⊎ (length ys ≤ 1)
within_bound count ys xs max_bytes e (inl h) =
    inr (omega (arith, ap length e, length-take count xs))
within_bound count ys xs max_bytes e (inr (inl h)) = inl (omega arith)
within_bound count ys xs max_bytes e (inr (inr (_, h))) =
    inr (omega (arith, ap length e, length-take count xs))

-- The sequences of a listed log, and its active segment behind them.
pub record IsSequenced (c : Codec) (log : WriteAheadLog) (sealed : Contents) : Type 0 where
  pub first : ℕ
  pub run : IsRun first (sequences_of (files c sealed))
  pub newest : log.active.sequence ≡ first + length sealed

pub IsListed-IsSequenced :
    (c : Codec) (log : WriteAheadLog) (sealed : Contents) (active : List (List ℕ))
    → IsListed c log sealed active
    → IsSequenced c log sealed
IsListed-IsSequenced c log sealed active h =
    let (same, contiguous) = discover-IsContiguous log.sealed (active_segments log) _ h.accepted in
    record {
      first = contiguous.first;
      run =
          subst (λ l. IsRun contiguous.first (sequences_of l)) h.holds.sealed_files contiguous.run;
      newest = omega (
        arith,
        contiguous.newest (log.active.sequence, log.active.file) refl,
        ap length h.holds.sealed_files,
        length-files c sealed,
      );
    }

open_listed :
    (c : Codec) (log : WriteAheadLog) (sealed : Contents) (active : List (List ℕ)) (place : Place)
    → IsListed c log sealed active
    → IsPlace sealed place
    → (r : SealedRecords) × (open_once c log.sealed
          (active_segments log)
          (cursor_of c (end_of log) place)
          log.config.max_record_bytes
        ≡ ok r)
      × IsAt c log.config.max_record_bytes (end_of log) r place
open_listed c log sealed active place h p =
    let s = IsListed-IsSequenced c log sealed active h in
    rw (h.holds.sealed_files, h.holds.active_file)
      (open_once-IsAt c log.config.max_record_bytes log.active.sequence sealed active s.first s.run
        s.newest h.holds.sealed_legal h.holds.active_legal h.sealed_fits h.active_fits place p
        (rw (h.holds.sealed_files, h.holds.active_file) at h.accepted))

read_window-opens :
    (c : Codec) (config : WalConfig) (sealed active : List Segment) (cursor : WalCursor)
    (max_bytes : ℕ) (r : SealedRecords)
    → 0 < max_bytes
    → open_once c sealed active cursor config.max_record_bytes ≡ ok r
    → read_window c config sealed active cursor max_bytes
      ≡ ok (record {
        records = r;
        checkpoint = cursor;
        max_bytes = max_bytes;
        framed_bytes = 0;
        is_finished = false;
      })
unfolding read_window
read_window-opens c config sealed active cursor max_bytes r h e =
    let positive : (max_bytes == 0) ≡ false = ground arith in rw (positive, e)

-- A window over a log of whole records, opened at the cursor of any place between its sealed records
-- or at the end of them, succeeds. It delivers the records from there on, in order and without a gap:
-- what it delivers and what is left at its new checkpoint are together what was left at the old one,
-- and that checkpoint is again the cursor of such a place. It delivers at least one record when there
-- is one, and more than `max_bytes` of frames only when it delivers a single record.
pub read_window-Published :
    (c : Codec) (log : WriteAheadLog) (sealed : Contents) (active : List (List ℕ)) (place : Place)
    (max_bytes calls : ℕ)
    → IsListed c log sealed active
    → IsPlace sealed place
    → 0 < max_bytes
    → max_bytes < u64_max
    → length (records_left c place) < calls
    → Published c log sealed place max_bytes calls
read_window-Published c log sealed active place max_bytes calls h p positive fits enough =
    let (r, opens, at) = open_listed c log sealed active place h p in
    let w : PublicationWindow = record {
      records = r;
      checkpoint = cursor_of c (end_of log) place;
      max_bytes = max_bytes;
      framed_bytes = 0;
      is_finished = false;
    } in
    let (last, ys, collects, d) =
      collect-Delivers c log.config.max_record_bytes (end_of log) sealed (records_left c place)
        place w calls
        (record {
          reader = at;
          known = p;
          unfinished = refl;
          checkpoint =
              sym (next_cursor-IsAt c log.config.max_record_bytes (end_of log) sealed r place at);
        })
        refl (records_left-AreFramed c place) fits enough in
    record {
      window = w;
      last = last;
      ys = ys;
      place' = d.place;
      opens =
          read_window-opens c log.config log.sealed (active_segments log) _ max_bytes r positive
            opens;
      collects = collects;
      checkpoint = d.checkpoint;
      known = d.known;
      split = rw (d.yields, d.left) (take-append-drop d.count (records_left c place));
      bounded = within_bound d.count ys (records_left c place) max_bytes d.yields d.bounded;
      progress = λ some_left.
          ground (arith, d.full, ap length d.yields, length-take d.count (records_left c place));
    }
