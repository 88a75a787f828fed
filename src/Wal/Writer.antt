-- ===== src/Wal/Writer.antt =====
-- src/pipeline/wal.rs: the single writer. What the operating system answers is an argument: `none` when
-- a call succeeds. A failed write may leave a part of the frame in the file. The crash points of
-- `fault.rs` do nothing unless they are armed, and are left out.
pub mod Append
pub mod Numbered
use hoglet.Prelude.{
  ℕ, ◌+◌, min, Bool, true, ◌&&◌, Option, none, some, List, [], ◌∷◌, ◌++◌, ltb, if◌then◌else◌,
  length, take, Result, ok, err, ◌>>=◌, ◌>>◌,
}
use hoglet.Wal.Batch.{
  CapturedBatch, WalError, WalCursor, WalSpan, WalReceipt, WalConfig, IoError, io, serialization,
  invalid_config, empty_batch, poisoned, record_too_large, is_nil, u64_max, event_count,
}
use hoglet.Wal.Codec.{Codec}
use hoglet.Wal.Frame.{encode_frame, record_header_bytes}

pub record ActiveSegment : Type 0 where
  pub sequence : ℕ
  pub file : List ℕ
  pub bytes : ℕ

-- `sealed` is the directory's sealed segments, oldest first.
pub record WriteAheadLog : Type 0 where
  pub config : WalConfig
  pub sealed : List (ℕ × List ℕ)
  pub active : ActiveSegment
  pub is_poisoned : Bool

abbrev pub Outcome : Type 0
Outcome = Option IoError

-- The answers to the calls of one seal, in order.
pub record SealIo : Type 0 where
  pub sync_all : Outcome
  pub rename : Outcome
  pub sync_directory : Outcome
  pub open_new_active : Outcome

-- How much of a frame landed when the write failed.
pub record WriteFault : Type 0 where
  pub landed : ℕ
  pub error : IoError

abbrev pub poison : WriteAheadLog → WriteAheadLog
poison log = record log { is_poisoned = true }

-- `rename(active, sealed)`.
abbrev pub renamed : WriteAheadLog → WriteAheadLog
renamed log = record log { sealed = log.sealed ++ (log.active.sequence, log.active.file) ∷ [] }

unfoldable pub seal_nonempty : WriteAheadLog → SealIo → WriteAheadLog × Result (Unit {0}) WalError
seal_nonempty log answers = elim answers.sync_all [
  | some e ↦ (poison log, err (io e))
  | none ↦ elim answers.rename [
    | some e ↦ (poison log, err (io e))
    | none ↦ elim answers.sync_directory [
      | some e ↦ (poison (renamed log), err (io e))
      | none ↦
          if ltb u64_max (log.active.sequence + 1)
          then (renamed log, err invalid_config)
          else elim answers.open_new_active [
            | some e ↦ (poison (renamed log), err (io e))
            | none ↦ (
              record (renamed log) {
                active = record { sequence = log.active.sequence + 1; file = []; bytes = 0 };
              },
              ok tt,
            )
          ]
    ]
  ]
]

-- The part of `write` after the active segment has room.
unfoldable pub write_frame :
    Codec
    → WriteAheadLog
    → List ℕ
    → ℕ
    → Option WriteFault
    → WriteAheadLog × Result WalReceipt WalError
write_frame c log payload count answer = elim answer [
  | some fault ↦ (
    poison (record log {
      active = record log.active {
        file = log.active.file ++ take fault.landed (encode_frame c payload);
      };
    }),
    err (io fault.error),
  )
  | none ↦ (
    record log {
      active = record log.active {
        file = log.active.file ++ encode_frame c payload;
        bytes = log.active.bytes + (record_header_bytes + length payload);
      };
    },
    ok (record {
      span = record {
        start = record { segment = log.active.sequence; byte_offset = log.active.bytes };
        finish = record {
          segment = log.active.sequence;
          byte_offset = log.active.bytes + (record_header_bytes + length payload);
        };
        framed_bytes = record_header_bytes + length payload;
      };
      event_count = count;
    }),
  )
]

abbrev pub must_seal : WriteAheadLog → ℕ → Bool
must_seal log framed_bytes =
    ltb 0 log.active.bytes
    && ltb log.config.segment_target_bytes (min (log.active.bytes + framed_bytes) u64_max)

-- `seal_nonempty` where the record would not fit, and then the frame.
unfoldable pub write_payload :
    Codec
    → WriteAheadLog
    → List ℕ
    → ℕ
    → SealIo
    → Option WriteFault
    → WriteAheadLog × Result WalReceipt WalError
write_payload c log payload count seal_answers answer =
    if must_seal log (record_header_bytes + length payload)
    then (let (log', sealing) = seal_nonempty log seal_answers in
        elim sealing [ err e ↦ (log', err e) | ok _ ↦ write_frame c log' payload count answer ])
    else write_frame c log payload count answer

unfoldable pub write :
    Codec
    → WriteAheadLog
    → CapturedBatch
    → SealIo
    → Option WriteFault
    → WriteAheadLog × Result WalReceipt WalError
write c log batch seal_answers answer =
    if log.is_poisoned
    then (log, err poisoned)
    else if is_nil batch.events
    then (log, err empty_batch)
    else elim (c.to_vec batch) [
      | none ↦ (log, err serialization)
      | some payload ↦
          if ltb log.config.max_record_bytes (length payload)
          then (log, err (record_too_large (length payload) log.config.max_record_bytes))
          else write_payload c log payload (event_count batch) seal_answers answer
    ]

unfoldable pub sync : WriteAheadLog → Outcome → WriteAheadLog × Result (Unit {0}) WalError
sync log answer =
    if log.is_poisoned
    then (log, err poisoned)
    else elim answer [ some e ↦ (poison log, err (io e)) | none ↦ (log, ok tt) ]

unfoldable pub append :
    Codec
    → WriteAheadLog
    → CapturedBatch
    → SealIo
    → Option WriteFault
    → Outcome
    → WriteAheadLog × Result WalReceipt WalError
append c log batch seal_answers answer sync_answer =
    let (log', written) = write c log batch seal_answers answer in
    elim written [
      | err e ↦ (log', err e)
      | ok receipt ↦
          let (log'', synced) = sync log' sync_answer in
          elim synced [ err e ↦ (log'', err e) | ok _ ↦ (log'', ok receipt) ]
    ]

unfoldable pub seal : WriteAheadLog → SealIo → WriteAheadLog × Result WalCursor WalError
seal log answers =
    if log.is_poisoned
    then (log, err poisoned)
    else if ltb 0 log.active.bytes
    then (let (log', sealing) = seal_nonempty log answers in
        elim sealing [
          | err e ↦ (log', err e)
          | ok _ ↦ (log', ok (record { segment = log'.active.sequence; byte_offset = 0 }))
        ])
    else (log, ok (record { segment = log.active.sequence; byte_offset = 0 }))
