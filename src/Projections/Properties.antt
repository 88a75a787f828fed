-- ===== src/Projections/Properties.antt =====
-- src/projections.rs: the properties that an event sets on its person, and on a group.
pub mod Changed
use hoglet.Prelude.{
  String, Bool, true, false, ◌&&◌, Option, none, some, List, [], ◌∷◌, if◌then◌else◌, nat_eq,
  string_eq, Result, ok, ◌>>=◌, list_eq,
}
use hoglet.Prelude.Map.{lookup, insert, remove, has_key, pair_eq}
use hoglet.Json.{Value, Object, Number, as_str, as_object, as_array}
use hoglet.Event.{CapturedEvent}
use hoglet.Projections.Store.{
  TimeFormat, ProjectionError, Tables, Key, update_person, ensure_person, row_of,
}

-- `for (key, value) in other { base.insert(key, value) }`.
unfoldable pub overlay : Object → Object → Object
overlay base [] = base
overlay base ((k, v) ∷ other) = overlay (insert k v base) other

-- `properties.remove(key)` for the texts among the keys.
unfoldable pub unset : Object → List Value → Object
unset properties [] = properties
unset properties (key ∷ keys) = elim (as_str key) [
  | none ↦ unset properties keys
  | some k ↦ unset (remove k properties) keys
]

-- `properties.entry(key).or_insert(value)` for each.
unfoldable pub underlay : Object → Object → Object
underlay base [] = base
underlay base ((k, v) ∷ other) = underlay (if has_key k base then base else insert k v base) other

abbrev pub property_object : CapturedEvent → String → Option Object
property_object event key = elim (lookup key event.properties) [
  | none ↦ none
  | some value ↦ as_object value
]

abbrev pub property_array : CapturedEvent → String → Option (List Value)
property_array event key = elim (lookup key event.properties) [
  | none ↦ none
  | some value ↦ as_array value
]

abbrev pub or_empty : Option Object → Object
or_empty none = []
or_empty (some o) = o

abbrev pub or_no_keys : Option (List Value) → List Value
or_no_keys none = []
or_no_keys (some ks) = ks

-- `$set_once`, then `$set`, then `$unset`.
unfoldable pub changed_properties : CapturedEvent → Object → Object
changed_properties event properties =
    unset
      (overlay (underlay properties (or_empty (property_object event "$set_once")))
        (or_empty (property_object event "$set")))
      (or_no_keys (property_array event "$unset"))

abbrev pub is_none {ℓ} : {A : Type ℓ} → Option A → Bool
is_none none = true
is_none (some a) = false

unfoldable pub apply_person_properties :
    TimeFormat → Tables → String → CapturedEvent → Result Tables ProjectionError
apply_person_properties time t project_id event =
    if is_none (property_object event "$set_once")
      && (is_none (property_object event "$set") && is_none (property_array event "$unset"))
    then ok t
    else (do
      (t', person_id) ← ensure_person time t project_id event.distinct_id event.timestamp
      row ← row_of t' project_id person_id
      ok (
          update_person t' project_id person_id
            (λ p. record p { properties = changed_properties event row.properties })))

-- `$group_key`, a text or a number. `Number::to_string` is a parameter.
abbrev pub group_key_text : (Number → String) → Value → Option String
group_key_text number_text (Value.string text) = some text
group_key_text number_text (Value.number n) = some (number_text n)
group_key_text number_text v = none

unfoldable pub apply_group :
    TimeFormat → (Number → String) → Tables → String → CapturedEvent → Tables
apply_group time number_text t project_id event = elim (lookup "$group_type" event.properties) [
  | none ↦ t
  | some type_value ↦ elim (as_str type_value) [
    | none ↦ t
    | some group_type ↦ elim (lookup "$group_key" event.properties) [
      | none ↦ t
      | some key_value ↦ elim (group_key_text number_text key_value) [
        | none ↦ t
        | some group_key ↦
            let key : String × Key = (project_id, (group_type, group_key)) in
            let set = or_empty (property_object event "$group_set") in
            record t {
              groups = elim (lookup key t.groups) [
                | none ↦
                    insert key
                      (record {
                        properties = overlay [] set;
                        created_at = time.to_rfc3339 event.timestamp;
                      })
                      t.groups
                | some group ↦
                    insert key (record group { properties = overlay group.properties set }) t.groups
              ];
            }
      ]
    ]
  ]
]
