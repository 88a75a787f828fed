-- ===== src/Wal/Frame.antt =====
-- src/pipeline/wal.rs: the frame of a record, and reading one. A file is its bytes; a reader stands at
-- the bytes that it has not read.
pub mod RoundTrip
use hoglet.Prelude.{
  ℕ, ◌+◌, ◌*◌, ◌/◌, ◌%◌, ◌^◌, not, Option, none, some, List, [], ◌∷◌, ◌++◌, ltb, ◌==◌, nat_eq,
  string_eq, length, take, drop, Result, ok, ◌>>=◌, ◌>>◌, fail_if, ok_or, list_eq,
}
use hoglet.Wal.Batch.{CapturedBatch, WalError, corruption, is_nil}
use hoglet.Wal.Codec.{Codec}

-- The bytes of `HGLW`.
abbrev pub record_magic : List ℕ
record_magic = 0x48 ∷ 0x47 ∷ 0x4c ∷ 0x57 ∷ []

abbrev pub record_version : ℕ
record_version = 1

abbrev pub record_header_bytes : ℕ
record_header_bytes = 16

-- `u32::to_le_bytes` and `u32::from_le_bytes`.
abbrev pub to_le_bytes : ℕ → List ℕ
to_le_bytes n = n % 256 ∷ n / 2 ^ 8 % 256 ∷ n / 2 ^ 16 % 256 ∷ n / 2 ^ 24 % 256 ∷ []

abbrev pub from_le_bytes : List ℕ → ℕ
from_le_bytes [] = 0
from_le_bytes (b ∷ bs) = b + 256 * from_le_bytes bs

unfoldable pub encode_frame : Codec → List ℕ → List ℕ
encode_frame c payload =
    record_magic
    ++ (record_version
        ∷ 0
        ∷ 0
        ∷ 0
        ∷ (to_le_bytes (length payload % 2 ^ 32) ++ (to_le_bytes (c.crc32 payload) ++ payload)))

unfoldable pub validate_header : List ℕ → ℕ → ℕ → Result (Unit {0}) WalError
validate_header header segment offset = do
  fail_if (not (take 4 header == record_magic)) (corruption segment offset "invalid record magic")
  fail_if (not (take 1 (drop 4 header) == record_version ∷ []))
      (corruption segment offset "unsupported record version")
  fail_if (not (take 3 (drop 5 header) == 0 ∷ 0 ∷ 0 ∷ []))
      (corruption segment offset "non-zero reserved header bytes")
  ok tt

-- The fields of a header, at bytes 8 to 12 and 12 to 16.
abbrev pub header_length : List ℕ → ℕ
header_length header = from_le_bytes (take 4 (drop 8 header))

abbrev pub header_crc : List ℕ → ℕ
header_crc header = from_le_bytes (take 4 (drop 12 header))

-- The record at the front of `rest`, with the bytes that its frame takes; `none` at the end of the
-- file.
unfoldable pub read_record :
    Codec → List ℕ → ℕ → ℕ → ℕ → Result (Option (CapturedBatch × ℕ)) WalError
unfolding validate_header is_nil
read_record c [] segment byte_offset max_record_bytes = ok none
read_record c (b ∷ bs) segment byte_offset max_record_bytes = do
  let rest = b ∷ bs
  let header = take record_header_bytes rest
  fail_if (ltb (length rest) record_header_bytes)
      (corruption segment byte_offset "incomplete record header")
  validate_header header segment byte_offset
  let len = header_length header
  fail_if (ltb max_record_bytes len) (corruption segment byte_offset "record length exceeds limit")
  let payload = take len (drop record_header_bytes rest)
  fail_if (not (length payload == len)) (corruption segment byte_offset "incomplete record payload")
  fail_if (not (c.crc32 payload == header_crc header))
      (corruption segment byte_offset "record checksum mismatch")
  batch ←
      ok_or (c.from_slice payload) (corruption segment byte_offset "invalid captured batch payload")
  fail_if (is_nil batch.events) (corruption segment byte_offset "empty captured batch")
  ok (some (batch, record_header_bytes + len))
