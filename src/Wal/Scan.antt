-- ===== src/Wal/Scan.antt =====
-- src/pipeline/wal.rs: the validation of a whole segment, and the repair of the active one's torn tail.
-- A file is its bytes; the scan stands at the bytes from `offset` on. Where the source cuts the file
-- at the offset of a torn tail, `valid_bytes` says how much of it is kept.
-- The calls of the operating system that open, read and cut the file are in Open.
pub mod Frames
pub mod Torn
pub mod Cut
use hoglet.Prelude.{
  ℕ, zero, suc, ◌+◌, ◌<◌, Bool, true, false, not, ◌&&◌, none, some, List, [], ◌∷◌, arith, ltb,
  if◌then◌else◌, ◌==◌, nat_eq, string_eq, length, take, drop, all, length-drop, Result, ok, err,
  list_eq,
}
use hoglet.Wal.Batch.{WalError, corruption, is_nil, u64_max}
use hoglet.Wal.Codec.{Codec}
use hoglet.Wal.Frame.{record_header_bytes, validate_header, header_length, header_crc}

pub record SegmentScan : Type 0 where
  pub valid_bytes : ℕ
  pub truncated_tail : Bool

-- What one round of the loop decides: it ends with a result, or takes a frame with `len` bytes of
-- payload.
pub data Round : Type 0 where
  finish : Result SegmentScan WalError → Round
  frame : ℕ → Round

unfoldable pub is_zero_tail : List ℕ → Bool
is_zero_tail bytes = all (λ b. b == 0) bytes

-- `if repair { truncated_tail = true; break; } return Err(error)`.
abbrev pub torn_or : Bool → ℕ → WalError → Round
torn_or repair offset error =
    finish
      (if repair then ok (record { valid_bytes = offset; truncated_tail = true }) else err error)

-- The checksum and the payload of a frame that the file holds whole.
unfoldable pub check_payload : Codec → ℕ → List ℕ → ℕ → ℕ → ℕ → Bool → Bool → Round
unfolding is_nil
check_payload c len payload crc sequence offset repair final_record =
    if not (c.crc32 payload == crc)
    then torn_or (repair && final_record) offset
        (corruption sequence offset "record checksum mismatch")
    else elim (c.from_slice payload) [
      | none ↦
          torn_or (repair && final_record) offset
            (corruption sequence offset "invalid captured batch payload")
      | some batch ↦
          if is_nil batch.events
          then finish (err (corruption sequence offset "empty captured batch"))
          else frame len
    ]

-- The length of a frame whose header is valid.
unfoldable pub check_frame : Codec → List ℕ → List ℕ → ℕ → ℕ → ℕ → Bool → Round
unfolding check_payload
check_frame c header rest sequence offset max_record_bytes repair =
    let len = header_length header in
    if ltb max_record_bytes len
    then finish (err (corruption sequence offset "record length exceeds limit"))
    else if ltb u64_max (record_header_bytes + len)
    then finish (err (corruption sequence offset "record length overflow"))
    else if ltb u64_max (offset + (record_header_bytes + len))
    then finish (err (corruption sequence offset "record offset overflow"))
    else if ltb (length rest) (record_header_bytes + len)
    then torn_or repair offset (corruption sequence offset "incomplete record payload")
    else check_payload c len (take len (drop record_header_bytes rest)) (header_crc header) sequence
        offset repair (length rest == record_header_bytes + len)

-- The body of the loop, at the bytes `rest` from `offset` on.
unfoldable pub scan_round : Codec → List ℕ → ℕ → ℕ → ℕ → Bool → Round
unfolding check_frame validate_header is_zero_tail
scan_round c rest sequence offset max_record_bytes repair =
    let header = take record_header_bytes rest in
    if ltb (length rest) record_header_bytes
    then torn_or repair offset (corruption sequence offset "incomplete record header")
    else elim (validate_header header sequence offset) [
      | err error ↦ torn_or (repair && is_zero_tail rest) offset error
      | ok _ ↦ check_frame c header rest sequence offset max_record_bytes repair
    ]

-- What a frame leaves is shorter.
pub drop_shorter :
    (k len b : ℕ) (bs : List ℕ)
    → length (b ∷ bs) < suc k
    → length (drop (record_header_bytes + len) (b ∷ bs)) < k
drop_shorter k len b bs h = omega (arith, length-drop (record_header_bytes + len) (b ∷ bs))

-- `while offset < file_bytes`. The bound `k` on what is left falls in every round.
unfoldable pub scan_loop :
    Codec
    → (k : ℕ) (rest : List ℕ) → ℕ
    → ℕ
    → ℕ
    → Bool
    → length rest < k
    → Result SegmentScan WalError
unfolding scan_round
scan_loop c zero rest sequence offset max_record_bytes repair h = absurd (omega arith)
scan_loop c (suc k) [] sequence offset max_record_bytes repair h =
    ok (record { valid_bytes = offset; truncated_tail = false })
scan_loop c (suc k) (b ∷ bs) sequence offset max_record_bytes repair h =
    elim (scan_round c (b ∷ bs) sequence offset max_record_bytes repair) [
      | finish result ↦ result
      | frame len ↦
          scan_loop c k (drop (record_header_bytes + len) (b ∷ bs)) sequence
            (offset + (record_header_bytes + len)) max_record_bytes repair
            (drop_shorter k len b bs h)
    ]

unfoldable pub scan_segment : Codec → List ℕ → ℕ → ℕ → Bool → Result SegmentScan WalError
unfolding scan_loop
scan_segment c file sequence max_record_bytes repair_final_tail =
    scan_loop c (suc (length file)) file sequence 0 max_record_bytes repair_final_tail (omega arith)
