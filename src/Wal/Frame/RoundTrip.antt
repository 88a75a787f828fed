-- ===== src/Wal/Frame/RoundTrip.antt =====
-- A frame is read back.
use hoglet.Prelude.{
  ℕ, ◌+◌, ◌^◌, ◌≤◌, ◌<◌, ◌≡◌, false, some, List, ◌++◌, arith, length, length-append, take-append,
  ok,
}
use hoglet.Wal.Batch.{CapturedBatch, is_nil, u32_max}
use hoglet.Wal.Codec.{Codec}
use hoglet.Wal.Frame.{
  encode_frame, read_record, validate_header, to_le_bytes, from_le_bytes, record_header_bytes,
}

-- A payload that the log takes and reads back as `batch`.
pub record IsPayload (c : Codec) (max_record_bytes : ℕ) (payload : List ℕ) (batch : CapturedBatch)
    : Type 0 where
  pub bounded : length payload ≤ max_record_bytes
  pub fits_u32 : max_record_bytes ≤ u32_max
  pub decoded : c.from_slice payload ≡ some batch
  pub nonempty : is_nil batch.events ≡ false

pub from_le_bytes-to_le_bytes : (n : ℕ) → n < 2 ^ 32 → from_le_bytes (to_le_bytes n) ≡ n
from_le_bytes-to_le_bytes n h = omega arith

pub length-encode_frame :
    (c : Codec) (payload : List ℕ)
    → length (encode_frame c payload) ≡ record_header_bytes + length payload
unfolding encode_frame
length-encode_frame c payload = omega arith

-- The bytes of a frame, followed by anything, read back as the batch of their payload and the length
-- of the frame, at any position of any segment.
pub read_record-encode_frame :
    (c : Codec) (max_record_bytes : ℕ) (payload rest : List ℕ) (batch : CapturedBatch)
    (segment byte_offset : ℕ)
    → IsPayload c max_record_bytes payload batch
    → read_record c (encode_frame c payload ++ rest) segment byte_offset max_record_bytes
      ≡ ok (some (batch, length (encode_frame c payload)))
unfolding read_record encode_frame validate_header
read_record-encode_frame c m payload rest batch segment byte_offset p = ground (
  arith,
  c.crc32_bound payload,
  from_le_bytes-to_le_bytes (length payload),
  from_le_bytes-to_le_bytes (c.crc32 payload),
  take-append payload rest,
  length-append payload rest,
)
