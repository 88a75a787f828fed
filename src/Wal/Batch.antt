-- ===== src/Wal/Batch.antt =====
-- src/pipeline/wal.rs: batches, cursors, spans, the configuration and the errors.
pub mod Authorized
use hoglet.Prelude.{
  ℕ, ◌-◌, ◌*◌, ◌^◌, String, Bool, true, false, not, ◌||◌, Option, none, some, List, [], ◌∷◌, ltb,
  ◌==◌, nat_eq, string_eq, length, any, Result, ok, ◌>>=◌, ◌>>◌, fail_if,
}
use hoglet.Prelude.Int.{ℤ, pos}
use hoglet.Prelude.Map.{Map, lookup, has_key}
use hoglet.Prelude.Text.{is_blank}
use hoglet.Event.{CapturedEvent}

abbrev pub u32_max : ℕ
u32_max = 2 ^ 32 - 1

abbrev pub u64_max : ℕ
u64_max = 2 ^ 64 - 1

-- `std::io::ErrorKind`, as far as the log tells kinds apart.
pub data IoError : Type 0 where
  not_found other : IoError

pub data WalError : Type 0 where
  io : IoError → WalError
  serialization invalid_config empty_batch invalid_project_binding poisoned writer_locked : WalError
  record_too_large : ℕ → ℕ → WalError
  corruption : ℕ → ℕ → String → WalError

pub record CapturedBatch : Type 0 where
  pub events : List CapturedEvent
  pub project_ids_by_token : Map String String
  pub historical_migration : Bool
  pub received_at_ms : ℤ

unfoldable pub is_nil : List CapturedEvent → Bool
is_nil [] = true
is_nil (e ∷ es) = false

unfoldable pub new : List CapturedEvent → Result CapturedBatch WalError
unfolding is_nil
new events = do
  fail_if (is_nil events) empty_batch
  ok (record {
    events = events;
    project_ids_by_token = [];
    historical_migration = false;
    received_at_ms = pos 0;
  })

-- `now_ms` is `chrono::Utc::now().timestamp_millis()`.
unfoldable pub authorized :
    List CapturedEvent → Map String String → Bool → ℤ → Result CapturedBatch WalError
unfolding is_nil
authorized events project_ids_by_token historical_migration now_ms = do
  fail_if (is_nil events) empty_batch
  fail_if
      (any (λ binding. binding.0 == "" || is_blank binding.1) project_ids_by_token
        || any (λ event. not (has_key event.token project_ids_by_token)) events)
      invalid_project_binding
  ok (record {
    events = events;
    project_ids_by_token = project_ids_by_token;
    historical_migration = historical_migration;
    received_at_ms = now_ms;
  })

abbrev pub event_count : CapturedBatch → ℕ
event_count batch = length batch.events

unfoldable pub project_id_for : CapturedBatch → CapturedEvent → Option String
project_id_for batch event = lookup event.token batch.project_ids_by_token

-- `collect` into an `Option`: the project of every event, or `none` at the first that is unbound.
unfoldable pub project_ids_of : CapturedBatch → List CapturedEvent → Option (List String)
project_ids_of batch [] = some []
project_ids_of batch (event ∷ events) = elim (project_id_for batch event) [
  | none ↦ none
  | some project_id ↦ elim (project_ids_of batch events) [
    | none ↦ none
    | some rest ↦ some (project_id ∷ rest)
  ]
]

unfoldable pub project_ids : CapturedBatch → Option (List String)
unfolding project_ids_of
project_ids batch = project_ids_of batch batch.events

pub record WalCursor : Type 0 where
  pub segment : ℕ
  pub byte_offset : ℕ

abbrev pub origin : WalCursor
origin = record { segment = 1; byte_offset = 0 }

pub record WalSpan : Type 0 where
  pub start : WalCursor
  pub finish : WalCursor
  pub framed_bytes : ℕ

pub record WalReceipt : Type 0 where
  pub span : WalSpan
  pub event_count : ℕ

pub record WalConfig : Type 0 where
  pub segment_target_bytes : ℕ
  pub max_record_bytes : ℕ

unfoldable pub config_new : ℕ → ℕ → Result WalConfig WalError
config_new segment_target_bytes max_record_bytes = do
  fail_if (segment_target_bytes == 0 || max_record_bytes == 0 || ltb u32_max max_record_bytes)
      invalid_config
  ok (record { segment_target_bytes = segment_target_bytes; max_record_bytes = max_record_bytes })

abbrev pub config_default : WalConfig
config_default = record {
  segment_target_bytes = 64 * 1024 * 1024;
  max_record_bytes = 64 * 1024 * 1024;
}
