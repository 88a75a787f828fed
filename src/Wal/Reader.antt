-- ===== src/Wal/Reader.antt =====
-- src/pipeline/wal.rs: reading the sealed segments, the publisher's window over them, and the removal of
-- what it has committed. A sealed file does not change, so a reader keeps its bytes. A file that the
-- layout lists opens and reads.
pub mod Window
pub mod Reclaim
pub mod Stream
pub mod Position
pub mod Delivery
pub mod Resume
pub mod Publication
mod Tests
use hoglet.Wal.Cursor.{validate_cursor}
use hoglet.Wal.Frame.{read_record}
use hoglet.Wal.Layout.{Segment, SegmentLayout, next_segment_cursor, discover_segment_layout}
use hoglet.Wal.Codec.{Codec}
use hoglet.Wal.Batch.{
  WalError, WalCursor, WalConfig, WalSpan, CapturedBatch, IoError, io, invalid_config, u64_max,
}
use hoglet.Prelude.{
  ℕ, ◌+◌, Bool, true, false, Option, none, some, List, [], ◌∷◌, leb, if◌then◌else◌, ◌==◌, nat_eq,
  string_eq, drop, Result, ok, err, ◌>>=◌, list_eq,
}

pub record WalRecord : Type 0 where
  pub batch : CapturedBatch
  pub span : WalSpan

-- `segments` are those from `segment_index` on, and `file` is what an open file still holds behind its
-- position.
pub record SealedRecords : Type 0 where
  pub segments : List Segment
  pub file : Option (List ℕ)
  pub next_cursor : WalCursor
  pub terminal_cursor : Option WalCursor
  pub max_record_bytes : ℕ
  pub is_finished : Bool

abbrev pub at_offset : ℕ → ℕ → WalCursor
at_offset segment byte_offset = record { segment = segment; byte_offset = byte_offset }

abbrev pub or_cursor : Option WalCursor → WalCursor → WalCursor
or_cursor none fallback = fallback
or_cursor (some cursor) fallback = cursor

unfoldable pub terminal : SegmentLayout → Option WalCursor
terminal layout = elim layout.active [
  | some active ↦ some (at_offset active.0 0)
  | none ↦ next_segment_cursor layout
]

abbrev pub segments_from : ℕ → List Segment → List Segment
segments_from sequence [] = []
segments_from sequence (s ∷ ss) =
    let more = segments_from sequence ss in if leb sequence s.0 then s ∷ more else more

unfoldable pub open_once :
    Codec → List Segment → List Segment → WalCursor → ℕ → Result SealedRecords WalError
unfolding terminal
open_once c sealed active cursor max_record_bytes =
    discover_segment_layout sealed active >>= λ layout.
    validate_cursor c layout cursor max_record_bytes >>= λ _. ok (record {
      segments = segments_from cursor.segment layout.sealed;
      file = none;
      next_cursor = cursor;
      terminal_cursor = terminal layout;
      max_record_bytes = max_record_bytes;
      is_finished = false;
    })

-- Where a reader goes behind a segment that it has read.
unfoldable pub next_start : List Segment → Option WalCursor → WalCursor → WalCursor
next_start [] end fallback = or_cursor end fallback
next_start (s ∷ ss) end fallback = at_offset s.0 0

-- The cursor of the next record of a segment, and the bytes from there on.
unfoldable pub start_of : Segment → SealedRecords → WalCursor
start_of s r = elim r.file [
  | some bytes ↦ r.next_cursor
  | none ↦ at_offset s.0 (if s.0 == r.next_cursor.segment then r.next_cursor.byte_offset else 0)
]

unfoldable pub unread : Segment → SealedRecords → List ℕ
unfolding start_of
unread s r = elim r.file [ some bytes ↦ bytes | none ↦ drop (start_of s r).byte_offset s.1 ]

-- The reader behind a record, with `rest` left in the file.
unfoldable pub after_record :
    Segment → List Segment → SealedRecords → WalCursor → List ℕ → SealedRecords
unfolding next_start
after_record s ss r end [] = record r {
  segments = ss;
  file = none;
  next_cursor = next_start ss r.terminal_cursor end;
}
after_record s ss r end (b ∷ bs) = record r {
  segments = s ∷ ss;
  file = some (b ∷ bs);
  next_cursor = end;
}

abbrev pub record_of : WalCursor → CapturedBatch → ℕ → WalRecord
record_of start batch framed_bytes = record {
  batch = batch;
  span = record {
    start = start;
    finish = at_offset start.segment (start.byte_offset + framed_bytes);
    framed_bytes = framed_bytes;
  };
}

-- `next_record`, over the segments that are left.
unfoldable pub next_record_loop :
    Codec → List Segment → SealedRecords → SealedRecords × Result (Option WalRecord) WalError
unfolding start_of unread after_record next_start
next_record_loop c [] r = (record r { segments = [] }, ok none)
next_record_loop c (s ∷ ss) r =
    let start = start_of s r in
    let bytes = unread s r in
    elim (read_record c bytes s.0 start.byte_offset r.max_record_bytes) [
      | err e ↦ (record r { segments = s ∷ ss; file = some bytes; next_cursor = start }, err e)
      | ok none ↦ next_record_loop c ss (record r {
        segments = ss;
        file = none;
        next_cursor = next_start ss r.terminal_cursor start;
      })
      | ok (some (batch, framed_bytes)) ↦ (
        after_record s ss r (at_offset start.segment (start.byte_offset + framed_bytes))
            (drop framed_bytes bytes),
        ok (some (record_of start batch framed_bytes)),
      )
    ]

unfoldable pub next_record :
    Codec → SealedRecords → SealedRecords × Result (Option WalRecord) WalError
unfolding next_record_loop
next_record c r = next_record_loop c r.segments r

-- `Iterator::next` of the records.
unfoldable pub next : Codec → SealedRecords → SealedRecords × Option (Result WalRecord WalError)
unfolding next_record
next c r = elim r.is_finished [
  | true ↦ (r, none)
  | false ↦
      let r' = (next_record c r).0 in
      elim (next_record c r).1 [
        | ok (some found) ↦ (r', some (ok found))
        | ok none ↦ (record r' { is_finished = true }, none)
        | err e ↦ (record r' { is_finished = true }, some (err e))
      ]
]
