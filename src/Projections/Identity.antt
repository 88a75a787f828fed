-- ===== src/Projections/Identity.antt =====
-- src/projections.rs: what one event does to persons.
pub mod Consistent
use hoglet.Prelude.{
  String, ◌||◌, Option, none, some, if◌then◌else◌, ◌==◌, nat_eq, string_eq, Result, ok, ◌>>=◌, ◌>>◌,
  fail_if, list_eq,
}
use hoglet.Prelude.Int.{ℤ}
use hoglet.Prelude.Map.{Map, lookup, insert, remove, has_key, pair_eq}
use hoglet.Prelude.Text.{is_blank, text_ltb}
use hoglet.Json.{Value, Object, Number, as_str, as_object, as_array}
use hoglet.Event.{CapturedEvent}
use hoglet.Projections.Store.{
  TimeFormat, ProjectionError, Person, Group, Tables, Key, resolve, person_of, update_person,
  repoint, delete_person, ensure_person, mark_identified, next_identity_seq, invalid_project_id,
  row_of,
}
use hoglet.Projections.Properties.{apply_group, apply_person_properties}
use hoglet.Projections.Merge.{
  MergeGuard, merge_persons, refuse_identified_source, refuse_both_identified, always,
}

-- The property `key`, if it is a text that is neither empty nor the event's own distinct id.
unfoldable pub other_id : CapturedEvent → String → Option String
other_id event key = elim (lookup key event.properties) [
  | none ↦ none
  | some value ↦ elim (as_str value) [
    | none ↦ none
    | some text ↦ if text == "" || text == event.distinct_id then none else some text
  ]
]

-- `UPDATE persons SET last_seen = … WHERE … AND (last_seen IS NULL OR last_seen < …)`.
abbrev pub seen_at : String → Person → Person
seen_at at p = elim p.last_seen [
  | none ↦ record p { last_seen = some at }
  | some before ↦ if text_ltb before at then record p { last_seen = some at } else p
]

unfoldable pub merge_other :
    TimeFormat
    → Tables
    → String
    → CapturedEvent
    → String
    → MergeGuard
    → Result Tables ProjectionError
merge_other time t project_id event key guard = elim (other_id event key) [
  | none ↦ ok t
  | some other ↦ merge_persons time t project_id other event.distinct_id event.timestamp guard
]

-- The `match` on the event's name.
unfoldable pub apply_name :
    TimeFormat → (Number → String) → Tables → String → CapturedEvent → Result Tables ProjectionError
apply_name time number_text t project_id event =
    if event.event == "$identify"
    then (do
      t' ← merge_other time t project_id event "$anon_distinct_id" refuse_identified_source
      ok (mark_identified t' project_id event.distinct_id))
    else if event.event == "$create_alias"
    then (do
      t' ← merge_other time t project_id event "alias" refuse_both_identified
      ok (mark_identified t' project_id event.distinct_id))
    else if event.event == "$merge_dangerously"
    then merge_other time t project_id event "alias" always
    else if event.event == "$groupidentify"
    then ok (apply_group time number_text t project_id event)
    else ok t

unfoldable pub apply_identity :
    TimeFormat → (Number → String) → Tables → String → CapturedEvent → Result Tables ProjectionError
apply_identity time number_text t project_id event = do
  (t', person_id) ← ensure_person time t project_id event.distinct_id event.timestamp
  let seen = update_person t' project_id person_id (seen_at (time.sortable_time event.timestamp))
  named ← apply_name time number_text seen project_id event
  apply_person_properties time named project_id event

unfoldable pub apply_identity_effects :
    TimeFormat → (Number → String) → Tables → String → CapturedEvent → Result Tables ProjectionError
apply_identity_effects time number_text t project_id event = do
  fail_if (is_blank project_id) invalid_project_id
  apply_identity time number_text t project_id event
