-- ===== src/Capture/Tests.antt =====
-- A batch of one event, and the theorems on it. The JSON parser gives this batch for every body.
use hoglet.Prelude.{refl, false, none, some, [], ◌∷◌, nat_eq, string_eq, All, list_eq}
use hoglet.Prelude.Int.{pos, ◌+ℤ◌, ◌≤ℤ◌}
use hoglet.Prelude.Map as Entries
use hoglet.Prelude.Map.{lookup, has_key, insert}
use hoglet.Prelude.Text.{is_blank, is_whitespace}
use hoglet.Json.{Value, Items, Fields}
use hoglet.Event.{CapturedEvent}
use hoglet.Token as Token
use hoglet.Capture.{
  Library, replace_null, take_chars, resolve_token, clean_distinct_id, distinct_id_of,
  resolve_distinct_id, correct_timestamp, resolve_timestamp, parse_timestamp, clamped, max_future,
}
use hoglet.Capture.Body.{assemble, resolve_event, resolve_events, batch_shape, shape_of, parse_body}
use hoglet.Capture.Accepted.{IsAccepted, parse_body-IsAccepted, resolve_timestamp-bound}

abbrev view : Fields
view =
    Fields.field "event" (Value.string "view")
      (Fields.field "distinct_id" (Value.string "u") Fields.end)

abbrev request : Value
request = Value.object (
    Fields.field "token" (Value.string "phc_a")
      (Fields.field "batch" (Value.array (Items.cons (Value.object view) Items.nil)) Fields.end))

abbrev fixed : Library
fixed = record {
  parse_json = λ body. some request;
  value_text = λ v. "";
  parse_uuid = λ s. none;
  uuid_v7 = λ at. 7;
  parse_rfc3339 = λ text. some (pos 9);
  parse_naive = λ text format. none;
  checked_sub_milliseconds = λ at ms. none;
  checked_sub = λ at skew. some at;
}

abbrev resolved : CapturedEvent
resolved = record {
  uuid = 7;
  event = "view";
  distinct_id = "u";
  token = "phc_a";
  timestamp = pos 5;
  properties = [];
}

parse_body-IsAccepted_example : All (IsAccepted (some "phc_a")) (resolved ∷ [])
unfolding parse_body shape_of batch_shape resolve_events resolve_event assemble resolve_token
    resolve_distinct_id distinct_id_of clean_distinct_id resolve_timestamp replace_null take_chars
    lookup has_key insert Entries.remove is_blank is_whitespace Token.validate Token.starts_with
    Token.is_empty
parse_body-IsAccepted_example =
    parse_body-IsAccepted fixed "{}" none (pos 5) request
      (record {
        raw_events = Value.object view ∷ [];
        batch_token = some "phc_a";
        sent_at = none;
        historical_migration = false;
      })
      (record { events = resolved ∷ []; historical_migration = false }) refl refl refl

resolve_timestamp-bound_example : pos 9 ≤ℤ pos 5 +ℤ max_future
unfolding resolve_timestamp correct_timestamp clamped parse_timestamp lookup ◌+ℤ◌
resolve_timestamp-bound_example =
    resolve_timestamp-bound fixed (("timestamp", Value.string "9") ∷ []) [] none (pos 5) (pos 9)
      refl refl
