-- ===== src/Wal/Writer/Numbered.antt =====
-- The writer numbers its segments one after the other.
use hoglet.Prelude.{
  ℕ, ◌+◌, ◌≤◌, ◌≡◌, ap, inl, inr, Option, none, some, List, [], ◌∷◌, ◌++◌, arith, ltb, Bool-cases,
  Option-cases, length, Result-cases, ok, Result-cases,
}
use hoglet.Wal.Batch.{CapturedBatch, WalReceipt, WalCursor, u64_max, event_count}
use hoglet.Wal.Codec.{Codec}
use hoglet.Wal.Layout.Numbered.{AreNumbered, AreNumbered-seal}
use hoglet.Wal.Writer.{
  WriteAheadLog, SealIo, WriteFault, Outcome, write, write_payload, write_frame, seal_nonempty,
  must_seal, seal, sync, record_header_bytes,
}

-- The segments of a log.
abbrev pub IsNumbered : WriteAheadLog → Type 0
IsNumbered log = AreNumbered log.sealed log.active.sequence

-- The calls that succeed.
pub data Run (c : Codec) (log : WriteAheadLog) : WriteAheadLog → Type 0 where
  start : Run c log log
  wrote :
      {mid after : WriteAheadLog} (batch : CapturedBatch) (answers : SealIo)
      (answer : Option WriteFault) (receipt : WalReceipt)
      → Run c log mid
      → write c mid batch answers answer ≡ (after, ok receipt)
      → Run c log after
  synced :
      {mid after : WriteAheadLog} (answer : Outcome)
      → Run c log mid
      → sync mid answer ≡ (after, ok tt)
      → Run c log after
  sealed :
      {mid after : WriteAheadLog} (answers : SealIo) (cursor : WalCursor)
      → Run c log mid
      → seal mid answers ≡ (after, ok cursor)
      → Run c log after

seal_nonempty-IsNumbered :
    (log after : WriteAheadLog) (answers : SealIo)
    → IsNumbered log
    → seal_nonempty log answers ≡ (after, ok tt)
    → IsNumbered after
unfolding seal_nonempty
seal_nonempty-IsNumbered log after answers h e =
    let room : log.active.sequence + 1 ≤ u64_max = ground arith in
    let next : WriteAheadLog = record log {
      sealed = log.sealed ++ (log.active.sequence, log.active.file) ∷ [];
      active = record { sequence = log.active.sequence + 1; file = []; bytes = 0 };
    } in
    let same : next ≡ after = ground arith in
    rw (← same) (AreNumbered-seal log.sealed log.active.sequence log.active.file h room)

write_frame-IsNumbered :
    (c : Codec) (log after : WriteAheadLog) (payload : List ℕ) (count : ℕ)
    (answer : Option WriteFault) (receipt : WalReceipt)
    → IsNumbered log
    → write_frame c log payload count answer ≡ (after, ok receipt)
    → IsNumbered after
unfolding write_frame
write_frame-IsNumbered c log after payload count (some fault) receipt h e = ground arith
write_frame-IsNumbered c log after payload count none receipt h e = rw (← ap (λ r. r.0) e) h

write_payload-IsNumbered :
    (c : Codec) (log after : WriteAheadLog) (payload : List ℕ) (count : ℕ) (answers : SealIo)
    (answer : Option WriteFault) (receipt : WalReceipt)
    → IsNumbered log
    → write_payload c log payload count answers answer ≡ (after, ok receipt)
    → IsNumbered after
unfolding write_payload
write_payload-IsNumbered c log after payload count answers answer receipt h e =
    elim (Bool-cases (must_seal log (record_header_bytes + length payload))) [
      | inr fits ↦ write_frame-IsNumbered c log after payload count answer receipt h (ground arith)
      | inl full ↦ elim (Result-cases (seal_nonempty log answers).1) [
        | inr (error, failed) ↦ absurd (ground arith)
        | inl (done, sealing) ↦
            let middle = (seal_nonempty log answers).0 in
            write_frame-IsNumbered c middle after payload count answer receipt
              (seal_nonempty-IsNumbered log middle answers h (λ i. (middle, sealing i)))
              (ground arith)
      ]
    ]

write-IsNumbered :
    (c : Codec) (log after : WriteAheadLog) (batch : CapturedBatch) (answers : SealIo)
    (answer : Option WriteFault) (receipt : WalReceipt)
    → IsNumbered log
    → write c log batch answers answer ≡ (after, ok receipt)
    → IsNumbered after
unfolding write
write-IsNumbered c log after batch answers answer receipt h e =
    elim (Option-cases (c.to_vec batch)) [
      | inl failed ↦ absurd (ground arith)
      | inr (payload, encoded) ↦
          write_payload-IsNumbered c log after payload (event_count batch) answers answer receipt h
            (ground arith)
    ]

sync-IsNumbered :
    (log after : WriteAheadLog) (answer : Outcome)
    → IsNumbered log
    → sync log answer ≡ (after, ok tt)
    → IsNumbered after
unfolding sync
sync-IsNumbered log after answer h e = let same : log ≡ after = ground arith in rw (← same) h

seal-IsNumbered :
    (log after : WriteAheadLog) (answers : SealIo) (cursor : WalCursor)
    → IsNumbered log
    → seal log answers ≡ (after, ok cursor)
    → IsNumbered after
unfolding seal
seal-IsNumbered log after answers cursor h e = elim (Bool-cases (ltb 0 log.active.bytes)) [
  | inr empty ↦ let same : log ≡ after = ground arith in rw (← same) h
  | inl full ↦ elim (Result-cases (seal_nonempty log answers).1) [
    | inr (error, failed) ↦ absurd (ground arith)
    | inl (done, sealing) ↦
        let middle = (seal_nonempty log answers).0 in
        let same : middle ≡ after = ground arith in
        rw (← same) (seal_nonempty-IsNumbered log middle answers h (λ i. (middle, sealing i)))
  ]
]

-- Writing, synchronising and sealing, as long as the calls succeed, keep the segments of a log numbered
-- one after the other from a positive number on, with the active one as the newest, and the numbers
-- within 64 bits.
pub Run-IsNumbered :
    {c : Codec} {log after : WriteAheadLog} → Run c log after → IsNumbered log → IsNumbered after
Run-IsNumbered start h = h
Run-IsNumbered {c} {log} {after} (wrote {mid} batch answers answer receipt r e) h =
    write-IsNumbered c mid after batch answers answer receipt (Run-IsNumbered r h) e
Run-IsNumbered {c} {log} {after} (synced {mid} answer r e) h =
    sync-IsNumbered mid after answer (Run-IsNumbered r h) e
Run-IsNumbered {c} {log} {after} (sealed {mid} answers cursor r e) h =
    seal-IsNumbered mid after answers cursor (Run-IsNumbered r h) e
