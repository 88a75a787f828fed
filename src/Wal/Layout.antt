-- ===== src/Wal/Layout.antt =====
-- src/pipeline/wal.rs: which segments a directory holds. The listing of the directory,
-- each kind sorted by sequence, is an argument: its names are parsed by code that is not modelled.
pub mod Contiguous
pub mod Numbered
use hoglet.Prelude.{
  ℕ, ◌+◌, Bool, false, not, Option, none, some, List, [], ◌∷◌, map, ltb, if◌then◌else◌, ◌==◌,
  nat_eq, string_eq, Result, ok, err, ◌>>=◌, ◌>>◌, fail_if, list_eq,
}
use hoglet.Wal.Batch.{
  WalError, WalCursor, WalConfig, IoError, corruption, io, invalid_config, u64_max,
}

abbrev pub Segment : Type 0
Segment = ℕ × List ℕ

pub record SegmentLayout : Type 0 where
  pub sealed : List Segment
  pub active : Option Segment

abbrev pub last_of {ℓ} : {A : Type ℓ} → List A → Option A
last_of [] = none
last_of (x ∷ []) = some x
last_of (x ∷ y ∷ xs) = last_of (y ∷ xs)

-- `checked_add` on u64.
abbrev pub checked_suc : ℕ → Option ℕ
checked_suc n = if ltb u64_max (n + 1) then none else some (n + 1)

unfoldable pub next_segment_cursor : SegmentLayout → Option WalCursor
next_segment_cursor layout = elim layout.active [
  | some _ ↦ none
  | none ↦ elim (last_of layout.sealed) [
    | none ↦ none
    | some last ↦ elim (checked_suc last.0) [
      | none ↦ none
      | some next ↦ some (record { segment = next; byte_offset = 0 })
    ]
  ]
]

-- `sort_by_key`, which is stable: a sequence goes behind those that are not greater.
unfoldable pub insert_sequence : ℕ → List ℕ → List ℕ
insert_sequence s [] = s ∷ []
insert_sequence s (t ∷ ts) = if ltb s t then s ∷ t ∷ ts else t ∷ insert_sequence s ts

-- `windows(2)`.
unfoldable pub check_windows : List ℕ → Result (Unit {0}) WalError
check_windows [] = ok tt
check_windows (previous ∷ []) = ok tt
check_windows (previous ∷ current ∷ rest) =
    let others = check_windows (current ∷ rest) in
    elim (checked_suc previous) [
      | none ↦ err (corruption previous 0 "segment sequence overflow")
      | some expected ↦
          if current == previous
          then err (corruption current 0 "duplicate segment sequence")
          else if not (current == expected)
          then err (corruption current 0 "missing WAL segment before this sequence")
          else others
    ]

abbrev pub starts_at_zero : List ℕ → Bool
starts_at_zero [] = false
starts_at_zero (s ∷ ss) = s == 0

abbrev pub sequences_of : List Segment → List ℕ
sequences_of = map (λ s. s.0)

-- With at most one active segment.
unfoldable pub discover : List Segment → Option Segment → Result SegmentLayout WalError
discover sealed none = do
  let sequences = sequences_of sealed
  fail_if (starts_at_zero sequences) (corruption 0 0 "segment sequence must be positive")
  check_windows sequences
  ok (record { sealed = sealed; active = none })
discover sealed (some active) = do
  let sequences = insert_sequence active.0 (sequences_of sealed)
  fail_if (starts_at_zero sequences) (corruption 0 0 "segment sequence must be positive")
  check_windows sequences
  fail_if (elim (last_of sequences) [ none ↦ false | some newest ↦ not (active.0 == newest) ])
      (corruption active.0 0 "active segment is not newest")
  ok (record { sealed = sealed; active = some active })

unfoldable pub discover_segment_layout : List Segment → List Segment → Result SegmentLayout WalError
discover_segment_layout sealed [] = discover sealed none
discover_segment_layout sealed (active ∷ []) = discover sealed (some active)
discover_segment_layout sealed (a ∷ b ∷ more) = err (corruption 0 0 "multiple active segments")
