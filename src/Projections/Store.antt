-- ===== src/Projections/Store.antt =====
-- src/projections.rs: the tables, and the statements on them.
use hoglet.Prelude.{
  ℕ, ◌+◌, String, Bool, true, false, ◌&&◌, Option, none, some, [], if◌then◌else◌, ◌==◌, nat_eq,
  string_eq, Result, ok, err, ok_or, list_eq,
}
use hoglet.Prelude.Int.{ℤ}
use hoglet.Prelude.Map.{Map, lookup, insert, remove, has_key, map_values, pair_eq}
use hoglet.Json.{Object}

-- What the source takes from `chrono`: `to_rfc3339`, and `sortable_time`'s format.
pub record TimeFormat : Type 0 where
  pub to_rfc3339 : ℤ → String
  pub sortable_time : ℤ → String

pub data ProjectionError : Type 0 where
  database invalid_json invalid_project_id : ProjectionError

pub record Person : Type 0 where
  pub created_at : String
  pub is_identified : Bool
  pub properties : Object
  pub first_seen_key : String
  pub last_seen : Option String

pub record DistinctId : Type 0 where
  pub person_id : String
  pub seq : ℕ

pub record Group : Type 0 where
  pub properties : Object
  pub created_at : String

abbrev pub Key : Type 0
Key = String × String

pub record Tables : Type 0 where
  pub persons : Map Key Person
  pub distinct_ids : Map Key DistinctId
  pub groups : Map (String × Key) Group
  pub identity_seq : ℕ

-- The person of a distinct id.
unfoldable pub resolve : Tables → String → String → Option String
resolve t project_id distinct_id = elim (lookup (project_id, distinct_id) t.distinct_ids) [
  | none ↦ none
  | some row ↦ some row.person_id
]

unfoldable pub person_of : Tables → String → String → Option Person
person_of t project_id id = lookup (project_id, id) t.persons

-- `UPDATE persons SET … WHERE project_id = … AND id = …`.
unfoldable pub update_person : Tables → String → String → (Person → Person) → Tables
update_person t project_id id f = record t {
  persons = map_values (λ k p. if k == (project_id, id) then f p else p) t.persons;
}

-- `UPDATE distinct_ids SET person_id = winner, seq = seq WHERE project_id = … AND person_id = loser`.
unfoldable pub repoint : Tables → String → String → String → ℕ → Tables
repoint t project_id loser winner seq = record t {
  distinct_ids =
      map_values
        (λ k row.
          if k.0 == project_id && row.person_id == loser
          then record { person_id = winner; seq = seq }
          else row)
        t.distinct_ids;
}

-- `DELETE FROM persons WHERE project_id = … AND id = …`.
unfoldable pub delete_person : Tables → String → String → Tables
delete_person t project_id id = record t { persons = remove (project_id, id) t.persons }

-- The two inserts of `ensure_person`; the first one fails on an id that is taken.
unfoldable pub ensure_person :
    TimeFormat → Tables → String → String → ℤ → Result (Tables × String) ProjectionError
ensure_person time t project_id distinct_id timestamp = elim (resolve t project_id distinct_id) [
  | some person_id ↦ ok (t, person_id)
  | none ↦
      if has_key (project_id, distinct_id) t.persons
      then err database
      else ok (
        record t {
          persons =
              insert (project_id, distinct_id)
                (record {
                  created_at = time.to_rfc3339 timestamp;
                  is_identified = false;
                  properties = [];
                  first_seen_key = distinct_id;
                  last_seen = none;
                })
                t.persons;
          distinct_ids =
              insert (project_id, distinct_id) (record { person_id = distinct_id; seq = 0 })
                t.distinct_ids;
        },
        distinct_id,
      )
]

unfoldable pub mark_identified : Tables → String → String → Tables
mark_identified t project_id distinct_id = elim (resolve t project_id distinct_id) [
  | none ↦ t
  | some id ↦ update_person t project_id id (λ p. record p { is_identified = true })
]

-- `UPDATE identity_state SET seq = seq + 1`, and the new value.
unfoldable pub next_identity_seq : Tables → Tables × ℕ
next_identity_seq t = (record t { identity_seq = t.identity_seq + 1 }, t.identity_seq + 1)

-- `query_row`, which fails on no row.
abbrev pub row_of : Tables → String → String → Result Person ProjectionError
row_of t project_id id = ok_or (person_of t project_id id) database
