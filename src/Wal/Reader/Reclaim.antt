-- ===== src/Wal/Reader/Reclaim.antt =====
-- src/pipeline/wal.rs: removing the sealed segments that a committed checkpoint covers. The crash point
-- between two removals does nothing unless it is armed.
mod Removed
pub mod Kept
use hoglet.Wal.Cursor.{validate_cursor}
use hoglet.Wal.Codec.{Codec}
use hoglet.Wal.Layout.{Segment, discover_segment_layout}
use hoglet.Wal.Batch.{WalError, WalCursor, WalConfig, IoError, io, u64_max}
use hoglet.Prelude.{
  ℕ, ◌+◌, min, ◌&&◌, ◌||◌, Option, none, some, List, [], ◌∷◌, map, ltb, if◌then◌else◌, ◌==◌, nat_eq,
  string_eq, length, Result, ok, err, ◌>>=◌, list_eq,
}

-- The sealed segments that are covered: the loop stops at the first one behind the checkpoint.
unfoldable pub covered : WalCursor → ℕ → List Segment → List Segment
covered checkpoint valid_bytes [] = []
covered checkpoint valid_bytes (s ∷ ss) =
    let more = covered checkpoint valid_bytes ss in
    if ltb checkpoint.segment s.0
    then []
    else if ltb s.0 checkpoint.segment
        || ((s.0 == checkpoint.segment) && (checkpoint.byte_offset == valid_bytes))
    then s ∷ more
    else more

-- A listing without a segment.
abbrev pub without : ℕ → List Segment → List Segment
without sequence [] = []
without sequence (s ∷ ss) =
    let more = without sequence ss in if s.0 == sequence then more else s ∷ more

-- `remove_file` for each segment, in order: the sealed segments that stay, and the first failure.
-- `answers` are those of the calls; a call beyond them succeeds.
unfoldable pub remove_files :
    List Segment → List (Option IoError) → List Segment → List Segment × Result (Unit {0}) WalError
remove_files [] answers sealed = (sealed, ok tt)
remove_files (q ∷ qs) [] sealed = remove_files qs [] (without q.0 sealed)
remove_files (q ∷ qs) (some e ∷ answers) sealed = (sealed, err (io e))
remove_files (q ∷ qs) (none ∷ answers) sealed = remove_files qs answers (without q.0 sealed)

-- The directory is synced when something was removed.
abbrev pub sync_after : List Segment → Option IoError → Result (Unit {0}) WalError
sync_after [] answer = ok tt
sync_after (s ∷ ss) none = ok tt
sync_after (s ∷ ss) (some e) = err (io e)

-- What is removed, once the cursor is known to be good.
unfoldable pub remove_covered :
    List Segment
    → List Segment
    → List (Option IoError)
    → Option IoError
    → List Segment × Result (List ℕ) WalError
unfolding remove_files
remove_covered reclaim sealed answers synced =
    let (left, removed) = remove_files reclaim answers sealed in
    (left, removed >>= λ _. sync_after reclaim synced >>= λ _. ok (map (λ s. s.0) reclaim))

unfoldable pub reclaim_through_once :
    Codec
    → WalConfig
    → WalCursor
    → List Segment
    → List Segment
    → List (Option IoError)
    → Option IoError
    → List Segment × Result (List ℕ) WalError
unfolding covered remove_covered
reclaim_through_once c config checkpoint sealed active answers synced =
    elim (discover_segment_layout sealed active) [
      | err e ↦ (sealed, err e)
      | ok layout ↦ elim (validate_cursor c layout checkpoint config.max_record_bytes) [
        | err e ↦ (sealed, err e)
        | ok valid_bytes ↦
            remove_covered (covered checkpoint valid_bytes layout.sealed) sealed answers synced
      ]
    ]

-- `saturating_add` of the lengths, from the oldest segment on.
unfoldable pub add_bytes : ℕ → List Segment → ℕ
add_bytes bytes [] = bytes
add_bytes bytes (s ∷ ss) = add_bytes (min u64_max (bytes + length s.1)) ss

unfoldable pub sealed_bytes : List Segment → List Segment → Result ℕ WalError
unfolding add_bytes
sealed_bytes sealed active =
    discover_segment_layout sealed active >>= λ layout. ok (add_bytes 0 layout.sealed)
