-- ===== src/Capture/Body.antt =====
-- src/capture/event.rs: one event, and the four shapes of a body.
use hoglet.Prelude.{
  ℕ, String, Bool, false, Option, none, some, List, [], ◌∷◌, map, if◌then◌else◌, ◌==◌, nat_eq,
  string_eq, codes, Result, ok, err, ◌>>=◌, ok_or, list_eq,
}
use hoglet.Prelude.Int.{ℤ}
use hoglet.Prelude.Map as Entries
use hoglet.Prelude.Map.{lookup, has_key}
use hoglet.Json.{Value, Fields, Object, as_object, as_array, to_object, to_list}
use hoglet.Event.{CapturedEvent}
use hoglet.Capture.{
  Library, CaptureError, ParsedBatch, malformed, text_of, is_set, or_else, fold_key, resolve_token,
  resolve_distinct_id, parse_timestamp, resolve_timestamp,
}

module _ (lib : Library) where
  abbrev pub event_name : Object → Result String CaptureError
  event_name obj = elim (text_of (lookup "event" obj)) [
    | none ↦ err (malformed "missing event name")
    | some name ↦ if name == "" then err (malformed "missing event name") else ok name
  ]

  abbrev pub properties_of : Object → Result Object CaptureError
  properties_of obj = elim (lookup "properties" obj) [
    | none ↦ ok []
    | some v ↦ elim (as_object v) [
      | none ↦ err (malformed "properties must be an object")
      | some map ↦ ok map
    ]
  ]

  abbrev pub uuid_of : Object → ℤ → Result ℕ CaptureError
  uuid_of obj timestamp = elim (text_of (lookup "uuid" obj)) [
    | none ↦ ok (lib.uuid_v7 timestamp)
    | some s ↦ ok_or (lib.parse_uuid s) (malformed "invalid uuid")
  ]

  -- From the token on.
  unfoldable pub assemble :
      Object → Object → String → Option String → Option ℤ → ℤ → Result CapturedEvent CaptureError
  assemble obj properties name batch_token sent_at now = do
    token ← resolve_token obj properties batch_token
    distinct_id ← resolve_distinct_id lib obj properties
    timestamp ← resolve_timestamp lib obj properties sent_at now
    uuid ← uuid_of obj timestamp
    ok (record {
      uuid = uuid;
      event = name;
      distinct_id = distinct_id;
      token = token;
      timestamp = timestamp;
      properties = properties;
    })

  unfoldable pub resolve_event :
      Object → Option String → Option ℤ → ℤ → Result CapturedEvent CaptureError
  resolve_event whole batch_token sent_at now = do
    name ← event_name whole
    own ← properties_of whole
    assemble
        (Entries.remove "$set_once" (Entries.remove "$set" (Entries.remove "properties" whole)))
        (fold_key whole "$set_once" (fold_key whole "$set" own)) name batch_token sent_at now

  abbrev pub is_performance_event : Object → Bool
  is_performance_event obj = elim (text_of (lookup "event" obj)) [
    | none ↦ false
    | some name ↦ name == "$performance_event"
  ]

  unfoldable pub resolve_events :
      List Value → Option String → Option ℤ → ℤ → Result (List CapturedEvent) CaptureError
  resolve_events [] batch_token sent_at now = ok []
  resolve_events (raw ∷ raws) batch_token sent_at now =
      let rest = resolve_events raws batch_token sent_at now in
      elim (as_object raw) [
        | none ↦ err (malformed "event must be an object")
        | some obj ↦ if is_performance_event obj then rest else (do
          event ← resolve_event obj batch_token sent_at now
          events ← rest
          ok (event ∷ events))
      ]

  -- What the shape of a body says: the events, and what they share.
  pub record Shape : Type 0 where
    pub raw_events : List Value
    pub batch_token : Option String
    pub sent_at : Option ℤ
    pub historical_migration : Bool

  abbrev pub alone : Option ℤ → List Value → Shape
  alone sent_at raw_events = record {
    raw_events = raw_events;
    batch_token = none;
    sent_at = sent_at;
    historical_migration = false;
  }

  abbrev pub batch_sent_at : Option ℤ → Object → Option ℤ
  batch_sent_at sent_at obj = elim (text_of (lookup "sent_at" obj)) [
    | none ↦ sent_at
    | some s ↦ parse_timestamp lib (codes s)
  ]

  unfoldable pub batch_shape : Option ℤ → Object → Value → Result Shape CaptureError
  batch_shape sent_at obj batch = elim (as_array batch) [
    | none ↦ err (malformed "batch must be an array")
    | some raw_events ↦ ok (record {
      raw_events = raw_events;
      batch_token = text_of (or_else (lookup "token" obj) (lookup "api_key" obj));
      sent_at = batch_sent_at sent_at obj;
      historical_migration = is_set (lookup "historical_migration" obj);
    })
  ]

  -- The `match` on the body.
  unfoldable pub shape_of : Option ℤ → Value → Result Shape CaptureError
  shape_of sent_at (Value.array items) = ok (alone sent_at (to_list items))
  shape_of sent_at (Value.object fields) =
      let obj = to_object fields in
      elim (lookup "batch" obj) [
        | some batch ↦ batch_shape sent_at (Entries.remove "batch" obj) batch
        | none ↦ ok (
            alone sent_at (
              Value.object (
                if has_key "event" obj
                then fields
                else Fields.field "event" (Value.string "$identify") fields)
              ∷ []))
      ]
  shape_of sent_at other = err (malformed "body must be an object or array")

  unfoldable pub parse_body : String → Option ℤ → ℤ → Result ParsedBatch CaptureError
  parse_body body sent_at_query now = do
    value ← ok_or (lib.parse_json body) (malformed "invalid JSON")
    shape ← shape_of sent_at_query value
    events ← resolve_events shape.raw_events shape.batch_token shape.sent_at now
    ok (record { events = events; historical_migration = shape.historical_migration })
