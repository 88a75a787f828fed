-- ===== src/Wal/Cursor.antt =====
-- src/pipeline/wal.rs: the check of a cursor against the segments, and the retries of a reader that
-- races with the writer.
pub mod Boundary
pub mod Race
use hoglet.Wal.Scan.{scan_segment}
use hoglet.Wal.Frame.{validate_header, record_header_bytes, header_length}
use hoglet.Wal.Layout.{Segment, SegmentLayout, next_segment_cursor}
use hoglet.Wal.Codec.{Codec}
use hoglet.Wal.Batch.{WalError, WalCursor, corruption, io, not_found, other, u64_max}
use hoglet.Prelude.{
  ℕ, zero, suc, ◌+◌, ◌-◌, String, Bool, true, false, not, ◌&&◌, ◌||◌, Option, none, some, List, [],
  ◌∷◌, ltb, if◌then◌else◌, ◌==◌, nat_eq, string_eq, length, take, drop, Result, ok, err, ◌>>=◌,
  ◌>>◌, fail_if, list_eq,
}

-- How often a reader retries after losing a race with the writer.
abbrev pub layout_race_attempts : ℕ
layout_race_attempts = 50

unfoldable pub is_race_reason : String → Bool
is_race_reason reason =
    (reason == "missing WAL segment before this sequence")
    || (reason == "active segment is not newest")
    || (reason == "duplicate segment sequence")
    || (reason == "multiple active segments")
    || (reason == "cursor segment does not exist")

unfoldable pub is_layout_race : WalError → Bool
unfolding is_race_reason
is_layout_race (io not_found) = true
is_layout_race (io other) = false
is_layout_race (corruption segment offset reason) = is_race_reason reason
is_layout_race e = false

-- `attempt i` is the result of the call that follows `i` others. `n` more may follow this one.
unfoldable pub retry_from {ℓ} : {A : Type ℓ} → (ℕ → Result A WalError) → ℕ → ℕ → Result A WalError
unfolding is_layout_race
retry_from attempt zero i = attempt i
retry_from attempt (suc n) i = elim (attempt i) [
  | ok a ↦ ok a
  | err e ↦ elim (is_layout_race e) [ true ↦ retry_from attempt n (i + 1) | false ↦ err e ]
]

unfoldable pub retry_layout_race {ℓ} : {A : Type ℓ} → (ℕ → Result A WalError) → Result A WalError
unfolding retry_from
retry_layout_race attempt = retry_from attempt (layout_race_attempts - 1) 0

-- The file of a segment in a list of them.
unfoldable pub find_segment : ℕ → List Segment → Option (List ℕ)
find_segment sequence [] = none
find_segment sequence (s ∷ ss) =
    let more = find_segment sequence ss in if s.0 == sequence then some s.1 else more

abbrev pub find_active : ℕ → Option Segment → Option (List ℕ)
find_active sequence none = none
find_active sequence (some s) = if s.0 == sequence then some s.1 else none

unfoldable pub segment_file : SegmentLayout → ℕ → Option (List ℕ)
unfolding find_segment
segment_file layout sequence = elim (find_segment sequence layout.sealed) [
  | some file ↦ some file
  | none ↦ find_active sequence layout.active
]

-- The frame at `offset`: the bytes that it takes. A file that ends within the header is an I/O error.
unfoldable pub frame_bytes_at : List ℕ → ℕ → ℕ → ℕ → Result ℕ WalError
unfolding validate_header
frame_bytes_at file sequence offset max_record_bytes = do
  let header = take record_header_bytes (drop offset file)
  fail_if (ltb (length header) record_header_bytes) (io other)
  validate_header header sequence offset
  fail_if (ltb max_record_bytes (header_length header))
      (corruption sequence offset "record length exceeds limit")
  fail_if (ltb u64_max (record_header_bytes + header_length header))
      (corruption sequence offset "record length overflow")
  fail_if (ltb u64_max (offset + (record_header_bytes + header_length header)))
      (corruption sequence offset "record offset overflow")
  ok (record_header_bytes + header_length header)

-- `while offset < target`. Each round passes at least one byte, so `k` rounds of the distance are
-- enough.
unfoldable pub boundary_loop : ℕ → List ℕ → ℕ → ℕ → ℕ → ℕ → Result Bool WalError
unfolding frame_bytes_at
boundary_loop zero file sequence offset target max_record_bytes = ok (offset == target)
boundary_loop (suc k) file sequence offset target max_record_bytes = elim (ltb offset target) [
  | false ↦ ok (offset == target)
  | true ↦ elim (frame_bytes_at file sequence offset max_record_bytes) [
    | err e ↦ err e
    | ok frame_bytes ↦ elim (ltb target (offset + frame_bytes)) [
      | true ↦ ok false
      | false ↦ boundary_loop k file sequence (offset + frame_bytes) target max_record_bytes
    ]
  ]
]

unfoldable pub is_record_boundary : List ℕ → ℕ → ℕ → ℕ → Result Bool WalError
unfolding boundary_loop
is_record_boundary file sequence target max_record_bytes =
    if target == 0 then ok true else boundary_loop target file sequence 0 target max_record_bytes

abbrev pub cursor_eq : WalCursor → WalCursor → Bool
cursor_eq a b = (a.segment == b.segment) && (a.byte_offset == b.byte_offset)

abbrev pub is_cursor : Option WalCursor → WalCursor → Bool
is_cursor none b = false
is_cursor (some a) b = cursor_eq a b

-- `validate_cursor`: the valid bytes of the cursor's segment.
unfoldable pub validate_in_file : Codec → List ℕ → WalCursor → ℕ → Result ℕ WalError
validate_in_file c file cursor max_record_bytes =
    scan_segment c file cursor.segment max_record_bytes false >>= λ scan.
    fail_if (ltb scan.valid_bytes cursor.byte_offset)
      (corruption cursor.segment cursor.byte_offset "cursor is beyond segment EOF")
    >>= λ _.
        is_record_boundary file cursor.segment cursor.byte_offset max_record_bytes >>= λ boundary.
        fail_if (not boundary)
          (corruption cursor.segment cursor.byte_offset "cursor is not on a record boundary")
        >>= λ _. ok scan.valid_bytes

unfoldable pub validate_cursor : Codec → SegmentLayout → WalCursor → ℕ → Result ℕ WalError
unfolding segment_file validate_in_file
validate_cursor c layout cursor max_record_bytes = elim (segment_file layout cursor.segment) [
  | some file ↦ validate_in_file c file cursor max_record_bytes
  | none ↦
      if cursor.byte_offset == 0 && is_cursor (next_segment_cursor layout) cursor
      then ok 0
      else err (corruption cursor.segment cursor.byte_offset "cursor segment does not exist")
]
