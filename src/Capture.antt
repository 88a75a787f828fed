-- ===== src/Capture.antt =====
-- src/capture/event.rs: how the token, the distinct id and the timestamp of an event are resolved.
use hoglet.Flags.Text.{reversed}
use hoglet.Prelude.{
  ℕ, zero, suc, ◌*◌, ◌^◌, String, Bool, false, ◌&&◌, ◌||◌, Option, none, some, List, [], ◌∷◌, ◌++◌,
  leb, if◌then◌else◌, ◌==◌, nat_eq, string_eq, codes, Result, ok, err, ◌>>=◌, ◌>>◌, fail_if, ok_or,
  list_eq,
}
mod Body
mod Accepted
mod Tests
use Prim.Native.Char.{code}
use hoglet.Prelude.Int.{ℤ, ◌-ℤ◌, ltb_ℤ, ◌+ℤ◌}
use hoglet.Prelude.Map as Entries
use hoglet.Prelude.Map.{Map, lookup, insert, has_key}
use hoglet.Prelude.Text.{is_blank, as_bytes}
use hoglet.Json.{
  Value, Object, as_str, as_bool, as_i64, as_object, as_array, to_list, to_object, Fields,
}
use hoglet.Event.{CapturedEvent}
use hoglet.Token as Token

-- What the source takes from the crates `serde_json`, `uuid` and `chrono`. A moment is a number of
-- nanoseconds since the epoch, and a text that is parsed is its list of code points.
pub record Library : Type 0 where
  pub parse_json : String → Option Value
  -- `Value::to_string`.
  pub value_text : Value → String
  pub parse_uuid : String → Option ℕ
  pub uuid_v7 : ℤ → ℕ
  pub parse_rfc3339 : List ℕ → Option ℤ
  pub parse_naive : List ℕ → String → Option ℤ
  -- `Duration::try_milliseconds` and then `checked_sub_signed`; the latter alone.
  pub checked_sub_milliseconds : ℤ → ℤ → Option ℤ
  pub checked_sub : ℤ → ℤ → Option ℤ

abbrev pub max_distinct_id_chars : ℕ
max_distinct_id_chars = 200

-- `Duration::hours(MAX_FUTURE_HOURS)` in nanoseconds.
abbrev pub max_future : ℤ
max_future = ℤ.pos (23 * 3600 * 10 ^ 9)

pub data CaptureError : Type 0 where
  malformed unauthorized : String → CaptureError

pub record ParsedBatch : Type 0 where
  pub events : List CapturedEvent
  pub historical_migration : Bool

-- `.and_then(Value::as_str)` and its kin, and `.or_else`.
abbrev pub text_of : Option Value → Option String
text_of none = none
text_of (some v) = as_str v

abbrev pub is_set : Option Value → Bool
is_set none = false
is_set (some v) = elim (as_bool v) [ none ↦ false | some b ↦ b ]

abbrev pub or_else {ℓ} : {A : Type ℓ} → Option A → Option A → Option A
or_else none b = b
or_else (some a) b = some a

-- `s.replace('\0', "\u{FFFD}")`.
unfoldable pub replace_null : String → String
replace_null String.[] = ""
replace_null (String.◌∷◌ c s) =
    let rest = replace_null s in if code c == 0 then String.◌∷◌ "�" rest else String.◌∷◌ c rest

-- `s.chars().take(n).collect()`.
unfoldable pub take_chars : ℕ → String → String
take_chars zero s = ""
take_chars (suc n) String.[] = ""
take_chars (suc n) (String.◌∷◌ c s) = String.◌∷◌ c (take_chars n s)

-- `$set` and `$set_once` of the event go to its properties, unless these have them.
abbrev pub fold_key : Object → String → Object → Object
fold_key obj key properties = elim (lookup key obj) [
  | none ↦ properties
  | some v ↦ if has_key key properties then properties else insert key v properties
]

unfoldable pub resolve_token : Object → Object → Option String → Result String CaptureError
resolve_token obj properties batch_token = do
  raw ←
      ok_or
        (or_else batch_token (
          or_else (text_of (lookup "token" obj)) (
            or_else (text_of (lookup "$token" obj))
              (or_else (text_of (lookup "api_key" obj)) (text_of (lookup "token" properties))))))
        (unauthorized "no token")
  elim (Token.validate (as_bytes (codes raw))) [
    | ok _ ↦ ok raw
    | err _ ↦ err (unauthorized "invalid token")
  ]

module _ (lib : Library) where
  abbrev pub distinct_id_text : Value → Result String CaptureError
  distinct_id_text Value.null = err (malformed "null distinct_id")
  distinct_id_text (Value.string s) = ok s
  distinct_id_text other = ok (lib.value_text other)

  -- Nulls are replaced, a blank one is refused, and the rest is cut.
  unfoldable pub clean_distinct_id : String → Result String CaptureError
  clean_distinct_id s = do
    fail_if (is_blank (replace_null s)) (malformed "empty distinct_id")
    ok (take_chars max_distinct_id_chars (replace_null s))

  unfoldable pub distinct_id_of : Value → Result String CaptureError
  distinct_id_of raw = distinct_id_text raw >>= clean_distinct_id

  unfoldable pub resolve_distinct_id : Object → Object → Result String CaptureError
  resolve_distinct_id obj properties =
      ok_or
        (or_else (lookup "distinct_id" obj)
          (or_else (lookup "$distinct_id" obj) (lookup "distinct_id" properties)))
        (malformed "missing distinct_id")
      >>= distinct_id_of

  abbrev pub is_digit : ℕ → Bool
  is_digit c = leb 48 c && leb c 57

  -- A bare offset `+NN` at the end, which stands at the front of the reversed text, and gets `:00`.
  abbrev pub with_minutes : List ℕ → List ℕ → Option ℤ
  with_minutes raw (d ∷ e ∷ sign ∷ before ∷ rest) =
      if (sign == 43 || sign == 45) && (is_digit d && is_digit e)
      then lib.parse_rfc3339 (raw ++ codes ":00")
      else none
  with_minutes raw other = none

  unfoldable pub parse_timestamp : List ℕ → Option ℤ
  parse_timestamp raw = or_else (lib.parse_rfc3339 raw) (
      or_else (with_minutes raw (reversed raw)) (
        or_else (lib.parse_naive raw "%Y-%m-%dT%H:%M:%S%.f")
          (lib.parse_naive raw "%Y-%m-%d %H:%M:%S%.f")))

  -- `sent_at - now` is taken off, unless there is no `sent_at` or it is to be ignored.
  abbrev pub corrected : Option ℤ → Bool → ℤ → ℤ → Option ℤ
  corrected none ignore_sent_at now ts = some ts
  corrected (some sent_at) ignore_sent_at now ts =
      if ignore_sent_at then some ts else lib.checked_sub ts (sent_at -ℤ now)

  unfoldable pub clamped : ℤ → ℤ → ℤ
  clamped now ts = if ltb_ℤ (now +ℤ max_future) ts then now else ts

  abbrev pub offset_of : Object → Option ℤ
  offset_of obj = elim (lookup "offset" obj) [ none ↦ none | some v ↦ as_i64 v ]

  unfoldable pub correct_timestamp : Object → Option ℤ → ℤ → ℤ → Result ℤ CaptureError
  correct_timestamp properties sent_at now ts = do
    moved ←
        ok_or (corrected sent_at (is_set (lookup "$ignore_sent_at" properties)) now ts)
          (malformed "bad timestamp")
    ok (clamped now moved)

  unfoldable pub resolve_timestamp : Object → Object → Option ℤ → ℤ → Result ℤ CaptureError
  resolve_timestamp obj properties sent_at now = elim (offset_of obj) [
    | some offset ↦ ok_or (lib.checked_sub_milliseconds now offset) (malformed "bad offset")
    | none ↦ elim (text_of (lookup "timestamp" obj)) [
      | none ↦ ok now
      | some raw ↦
          ok_or (parse_timestamp (codes raw)) (malformed "bad timestamp")
          >>= correct_timestamp properties sent_at now
    ]
  ]
