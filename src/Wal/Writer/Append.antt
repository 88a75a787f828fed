-- ===== src/Wal/Writer/Append.antt =====
-- The writer keeps whole records in whole segments.
use hoglet.Prelude.{
  ℕ, ◌+◌, ◌≤◌, ◌<◌, ◌≡◌, refl, sym, ap, ◌∙◌, inl, inr, false, Option, none, some, List, [], ◌∷◌,
  ◌++◌, map, arith, Bool-cases, Option-cases, length, All, length-append, Result-cases, ok,
  Result-cases,
}
use mathlib.Core.Path.{ap₂}
use mathlib.Core.List.{append-nil, append_assoc}
use hoglet.Event.{CapturedEvent}
use hoglet.Wal.Batch.{CapturedBatch, WalReceipt, is_nil, u32_max, event_count}
use hoglet.Wal.Codec.{Codec, batch_nesting, recursion_limit}
use hoglet.Wal.Frame.{encode_frame, record_header_bytes}
use hoglet.Wal.Frame.RoundTrip.{IsPayload, length-encode_frame}
use hoglet.Wal.Scan.Frames.{frames, ArePayloads}
use hoglet.Wal.Writer.{
  WriteAheadLog, SealIo, WriteFault, write, write_payload, write_frame, seal_nonempty, must_seal,
}

-- The segments and the payloads of the records in them.
abbrev pub Contents : Type 0
Contents = List (ℕ × List (List ℕ))

abbrev pub files : Codec → Contents → List (ℕ × List ℕ)
files c = map (λ s. (s.0, frames c s.1))

-- The log's files hold whole records that can be read back: `sealed` in the sealed segments, and
-- `active` in the active one, whose length the writer knows.
pub record Holds (c : Codec) (log : WriteAheadLog) (sealed : Contents) (active : List (List ℕ))
    : Type 0 where
  pub sealed_files : log.sealed ≡ files c sealed
  pub active_file : log.active.file ≡ frames c active
  pub counted : log.active.bytes ≡ length log.active.file
  pub limit : log.config.max_record_bytes ≤ u32_max
  pub sealed_legal : All (λ s. ArePayloads c log.config.max_record_bytes s.1) sealed
  pub active_legal : ArePayloads c log.config.max_record_bytes active

pub frames-append :
    (c : Codec) (ps qs : List (List ℕ)) → frames c (ps ++ qs) ≡ frames c ps ++ frames c qs
unfolding frames
frames-append c [] qs = refl
frames-append c (p ∷ ps) qs =
    ap (◌++◌ (encode_frame c p)) (frames-append c ps qs)
    ∙ sym (append_assoc (encode_frame c p) (frames c ps) (frames c qs))

pub All-append {ℓ κ} :
    {A : Type ℓ} (P : A → Type κ) (front back : List A)
    → All P front × All P back
    → All P (front ++ back)
All-append P [] back (_, right) = right
All-append P (a ∷ front) back ((first, left), right) =
    (first, All-append P front back (left, right))

files-append :
    (c : Codec) (s : Contents) (q : ℕ) (ps : List (List ℕ))
    → files c (s ++ (q, ps) ∷ []) ≡ files c s ++ (q, frames c ps) ∷ []
files-append c [] q ps = refl
files-append c (t ∷ s) q ps = ap (◌∷◌ (t.0, frames c t.1)) (files-append c s q ps)

is_nil_of_length :
    (xs ys : List CapturedEvent) → length xs ≡ length ys → is_nil ys ≡ false → is_nil xs ≡ false
unfolding is_nil
is_nil_of_length [] [] e h = h
is_nil_of_length [] (y ∷ ys) e h = absurd (omega arith)
is_nil_of_length (x ∷ xs) ys e h = refl

-- What a batch becomes can be read back, unless it is nested too deep.
IsPayload-of :
    (c : Codec) (m : ℕ) (batch : CapturedBatch) (payload : List ℕ)
    → batch_nesting batch < recursion_limit
    → c.to_vec batch ≡ some payload
    → is_nil batch.events ≡ false
    → length payload ≤ m
    → m ≤ u32_max
    → (reread : CapturedBatch) × IsPayload c m payload reread
unfolding is_nil
IsPayload-of c m batch payload shallow e full bounded limit =
    let (reread, decoded, counts) = c.from_slice-to_vec batch payload shallow e in
    (
      reread,
      record {
        bounded = bounded;
        fits_u32 = limit;
        decoded = decoded;
        nonempty = is_nil_of_length reread.events batch.events counts full;
      },
    )

-- Every record of the log, oldest first.
unfoldable pub records : Contents → List (List ℕ) → List (List ℕ)
records [] active = active
records ((q, ps) ∷ sealed) active = ps ++ records sealed active

records-append :
    (sealed : Contents) (ps qs : List (List ℕ))
    → records sealed (ps ++ qs) ≡ records sealed ps ++ qs
unfolding records
records-append [] ps qs = refl
records-append ((q, r) ∷ sealed) ps qs =
    ap (◌++◌ r) (records-append sealed ps qs) ∙ sym (append_assoc r (records sealed ps) qs)

records-seal :
    (sealed : Contents) (q : ℕ) (ps : List (List ℕ))
    → records (sealed ++ (q, ps) ∷ []) [] ≡ records sealed ps
unfolding records
records-seal [] q ps = append-nil ps
records-seal ((q', r) ∷ sealed) q ps = ap (◌++◌ r) (records-seal sealed q ps)

-- The log after one more record, and what the receipt says of it.
pub record Appended (c : Codec) (before after : WriteAheadLog) (all : List (List ℕ))
    (payload : List ℕ) (receipt : WalReceipt) : Type 0 where
  pub sealed' : Contents
  pub active' : List (List ℕ)
  pub holds : Holds c after sealed' active'
  pub appended : records sealed' active' ≡ all ++ payload ∷ []
  pub config : after.config ≡ before.config
  pub unpoisoned : after.is_poisoned ≡ false
  pub in_active : receipt.span.finish.segment ≡ after.active.sequence
  pub at_end : receipt.span.finish.byte_offset ≡ after.active.bytes
  pub spans :
      receipt.span.start.byte_offset + receipt.span.framed_bytes ≡ receipt.span.finish.byte_offset
  pub framed : receipt.span.framed_bytes ≡ length (encode_frame c payload)

write_frame-Appended :
    (c : Codec) (log after : WriteAheadLog) (payload : List ℕ) (reread : CapturedBatch) (count : ℕ)
    (answer : Option WriteFault) (receipt : WalReceipt) (sealed : Contents) (active : List (List ℕ))
    → Holds c log sealed active
    → log.is_poisoned ≡ false
    → IsPayload c log.config.max_record_bytes payload reread
    → write_frame c log payload count answer ≡ (after, ok receipt)
    → Appended c log after (records sealed active) payload receipt
unfolding write_frame
write_frame-Appended c log after payload reread count (some fault) receipt sealed active h u p e =
    ground arith
write_frame-Appended c log after payload reread count none receipt sealed active h u p e =
    let l = length-encode_frame c payload in
    let last : frames c (payload ∷ []) ≡ encode_frame c payload =
      unfold frames in append-nil (encode_frame c payload) in
    let file' : log.active.file ++ encode_frame c payload ≡ frames c (active ++ payload ∷ []) =
      ap (λ b. b ++ encode_frame c payload) h.active_file
      ∙ sym (frames-append c active (payload ∷ []) ∙ ap (◌++◌ (frames c active)) last) in
    let after_eq = ap (λ r. r.0) e in
    rw (← after_eq) (record {
      sealed' = sealed;
      active' = active ++ payload ∷ [];
      holds = record {
        sealed_files = h.sealed_files;
        active_file = file';
        counted =
            omega (arith, h.counted, l, length-append log.active.file (encode_frame c payload));
        limit = h.limit;
        sealed_legal = h.sealed_legal;
        active_legal = All-append _ active (payload ∷ []) (h.active_legal, ((reread, p), tt));
      };
      appended = records-append sealed active (payload ∷ []);
      config = refl;
      unpoisoned = u;
      in_active = ground arith;
      at_end = ground arith;
      spans = ground arith;
      framed = ground (arith, l);
    })

-- A seal that succeeds moves the active records into a sealed segment.
pub seal_nonempty-Holds :
    (c : Codec) (log after : WriteAheadLog) (answers : SealIo) (sealed : Contents)
    (active : List (List ℕ))
    → Holds c log sealed active
    → seal_nonempty log answers ≡ (after, ok tt)
    → Holds c after (sealed ++ (log.active.sequence, active) ∷ []) []
      × (after.config ≡ log.config)
      × (after.is_poisoned ≡ log.is_poisoned)
      × (after.active.sequence ≡ log.active.sequence + 1)
unfolding seal_nonempty frames
seal_nonempty-Holds c log after answers sealed active h e =
    let next : WriteAheadLog = record log {
      sealed = log.sealed ++ (log.active.sequence, log.active.file) ∷ [];
      active = record { sequence = log.active.sequence + 1; file = []; bytes = 0 };
    } in
    let same : next ≡ after = ground arith in
    rw (← same) (
      record {
        sealed_files =
            ap₂ (λ (x : List (ℕ × List ℕ)) (f : List ℕ). x ++ (log.active.sequence, f) ∷ [])
              h.sealed_files h.active_file
            ∙ sym (files-append c sealed log.active.sequence active);
        active_file = refl;
        counted = refl;
        limit = h.limit;
        sealed_legal =
            All-append _ sealed ((log.active.sequence, active) ∷ [])
              (h.sealed_legal, (h.active_legal, tt));
        active_legal = tt;
      },
      refl,
      refl,
      refl,
    )

write_payload-Appended :
    (c : Codec) (log after : WriteAheadLog) (payload : List ℕ) (reread : CapturedBatch) (count : ℕ)
    (answers : SealIo) (answer : Option WriteFault) (receipt : WalReceipt) (sealed : Contents)
    (active : List (List ℕ))
    → Holds c log sealed active
    → log.is_poisoned ≡ false
    → IsPayload c log.config.max_record_bytes payload reread
    → write_payload c log payload count answers answer ≡ (after, ok receipt)
    → Appended c log after (records sealed active) payload receipt
unfolding write_payload
write_payload-Appended c log after payload reread count answers answer receipt sealed active h u p
      e =
    elim (Bool-cases (must_seal log (record_header_bytes + length payload))) [
      | inr fits ↦
          write_frame-Appended c log after payload reread count answer receipt sealed active h u p
            (ground arith)
      | inl full ↦ elim (Result-cases (seal_nonempty log answers).1) [
        | inr (error, failed) ↦ absurd (ground arith)
        | inl (done, sealing) ↦
            let middle = (seal_nonempty log answers).0 in
            let (held, config, poisoning, seq) =
              seal_nonempty-Holds c log middle answers sealed active h (λ i. (middle, sealing i)) in
            let r =
              write_frame-Appended c middle after payload reread count answer receipt
                (sealed ++ (log.active.sequence, active) ∷ []) [] held (poisoning ∙ u) (rw config p)
                (ground arith) in
            record {
              sealed' = r.sealed';
              active' = r.active';
              holds = r.holds;
              appended = r.appended ∙ ap (λ a. a ++ payload ∷ []) (records-seal sealed _ active);
              config = r.config ∙ config;
              unpoisoned = r.unpoisoned;
              in_active = r.in_active;
              at_end = r.at_end;
              spans = r.spans;
              framed = r.framed;
            }
      ]
    ]

-- Whatever the calls of the operating system answered: when `write` returns a receipt for a batch of
-- which the JSON is nested less deep than `serde_json` refuses to read, the log holds one record more,
-- the payload of the batch, after all that it held; every file still consists of whole records; and the receipt's span ends where the active segment now ends, and is as long as
-- the frame.
pub write-Appended :
    (c : Codec) (log after : WriteAheadLog) (batch : CapturedBatch) (answers : SealIo)
    (answer : Option WriteFault) (receipt : WalReceipt) (sealed : Contents) (active : List (List ℕ))
    → Holds c log sealed active
    → batch_nesting batch < recursion_limit
    → write c log batch answers answer ≡ (after, ok receipt)
    → (payload : List ℕ) × (c.to_vec batch ≡ some payload)
      × Appended c log after (records sealed active) payload receipt
unfolding write
write-Appended c log after batch answers answer receipt sealed active h shallow e =
    elim (Option-cases (c.to_vec batch)) [
      | inl failed ↦ absurd (ground arith)
      | inr (payload, encoded) ↦
          let (reread, p) =
            IsPayload-of c log.config.max_record_bytes batch payload shallow encoded (ground arith)
              (ground arith) h.limit in
          (
            payload,
            encoded,
            write_payload-Appended c log after payload reread (event_count batch) answers answer
                receipt sealed active h (ground arith) p (ground arith),
          )
    ]
