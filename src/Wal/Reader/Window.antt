-- ===== src/Wal/Reader/Window.antt =====
-- src/pipeline/wal.rs: the publisher's window, bounded in bytes.
use hoglet.Wal.Reader.{SealedRecords, WalRecord, Codec, Segment, next, open_once}
use hoglet.Wal.Batch.{WalError, WalCursor, WalConfig, invalid_config, u64_max}
use hoglet.Prelude.{
  ℕ, ◌+◌, min, Bool, true, false, ◌&&◌, Option, none, some, List, ltb, if◌then◌else◌, ◌==◌, nat_eq,
  string_eq, Result, ok, err, ◌>>=◌, list_eq,
}

pub record PublicationWindow : Type 0 where
  pub records : SealedRecords
  pub checkpoint : WalCursor
  pub max_bytes : ℕ
  pub framed_bytes : ℕ
  pub is_finished : Bool

unfoldable pub read_window :
    Codec
    → WalConfig
    → List Segment
    → List Segment
    → WalCursor
    → ℕ
    → Result PublicationWindow WalError
read_window c config sealed active cursor max_bytes =
    if max_bytes == 0
    then err invalid_config
    else open_once c sealed active cursor config.max_record_bytes >>= λ records. ok (record {
      records = records;
      checkpoint = cursor;
      max_bytes = max_bytes;
      framed_bytes = 0;
      is_finished = false;
    })

-- `u64::saturating_add`.
abbrev pub saturating_add : ℕ → ℕ → ℕ
saturating_add a b = min u64_max (a + b)

-- A record that would go beyond the bound, behind another one.
unfoldable pub is_past : PublicationWindow → WalRecord → Bool
is_past w found =
    ltb 0 w.framed_bytes && ltb w.max_bytes (saturating_add w.framed_bytes found.span.framed_bytes)

-- `Iterator::next` of the window.
unfoldable pub window_next :
    Codec → PublicationWindow → PublicationWindow × Option (Result WalRecord WalError)
unfolding is_past
window_next c w = elim w.is_finished [
  | true ↦ (w, none)
  | false ↦
      let r = (next c w.records).0 in
      elim (next c w.records).1 [
        | none ↦ (record w { records = r; checkpoint = r.next_cursor; is_finished = true }, none)
        | some (err e) ↦ (record w { records = r; is_finished = true }, some (err e))
        | some (ok found) ↦ elim (is_past w found) [
          | true ↦ (record w { records = r; is_finished = true }, none)
          | false ↦ (
            record w {
              records = r;
              framed_bytes = w.framed_bytes + found.span.framed_bytes;
              checkpoint = r.next_cursor;
            },
            some (ok found),
          )
        ]
      ]
]
