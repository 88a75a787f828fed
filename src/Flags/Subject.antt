-- ===== src/Flags/Subject.antt =====
-- src/flags/mod.rs: for whom flags are evaluated. The lookup of the person store, which may fail, is an
-- argument: `person_for_distinct_id` of the project (src/persons.rs) on the tables of the projections.
pub mod Continuity
use hoglet.Prelude.{
  String, Bool, true, false, ◌&&◌, ◌||◌, Option, none, some, List, [], if◌then◌else◌, ◌==◌, nat_eq,
  string_eq, any, Result, ok, err, list_eq,
}
use hoglet.Prelude.Int.{ℤ}
use hoglet.Json.{Object}
use hoglet.Projections.Store.{ProjectionError, Person, Tables, resolve, person_of}
use hoglet.Projections.Properties.{overlay}
use hoglet.Flags.Library.{Library}
use hoglet.Flags.Evaluation.{CompiledFlag, Evaluation, evaluate, reads_properties}

pub record Subject : Type 0 where
  pub distinct_id : String
  pub properties : Object
  pub continuity_id : String

pub record SubjectHints : Type 0 where
  pub anon_distinct_id : Option String
  pub person_properties : Option Object

unfoldable pub person_for_distinct_id : Tables → String → String → Option Person
person_for_distinct_id t project_id distinct_id = elim (resolve t project_id distinct_id) [
  | none ↦ none
  | some id ↦ person_of t project_id id
]

-- `.filter(|anon| !anon.is_empty())`
abbrev pub named : Option String → Option String
named none = none
named (some anon) = if anon == "" then none else some anon

-- What the store knows: the properties, the continuity id, and whether a lookup failed.
pub record Known : Type 0 where
  pub properties : Object
  pub continuity_id : Option String
  pub failed : Bool

module _ (person_for : String → Result (Option Person) ProjectionError) where
  abbrev pub own : String → Known
  own distinct_id = elim (person_for distinct_id) [
    | ok person ↦ elim person [
      | some p ↦ record {
        properties = p.properties;
        continuity_id = some p.first_seen_key;
        failed = false;
      }
      | none ↦ record { properties = []; continuity_id = none; failed = false }
    ]
    | err e ↦ record { properties = []; continuity_id = none; failed = true }
  ]

  -- The continuity id by way of the anonymous id, where the person is not known.
  abbrev pub by_anonymous : Option String → Known → Known
  by_anonymous anonymous known = elim known.continuity_id [
    | some id ↦ known
    | none ↦ elim (named anonymous) [
      | none ↦ known
      | some anon ↦ if known.failed then known else (elim (person_for anon) [
        | ok person ↦ elim person [
          | some p ↦ record known { continuity_id = some p.first_seen_key }
          | none ↦ record known { continuity_id = some anon }
        ]
        | err e ↦ record known { continuity_id = some anon; failed = true }
      ])
    ]
  ]

  abbrev pub continuity : Option String → Option String → String → String
  continuity (some id) anonymous distinct_id = id
  continuity none (some anon) distinct_id = anon
  continuity none none distinct_id = distinct_id

  abbrev pub overridden : Object → Option Object → Object
  overridden properties none = properties
  overridden properties (some overrides) = overlay properties overrides

  unfoldable pub resolve_subject : String → SubjectHints → Bool → Subject × Bool
  resolve_subject distinct_id hints needs_person =
      let known : Known =
        if needs_person
        then by_anonymous hints.anon_distinct_id (own distinct_id)
        else record { properties = []; continuity_id = none; failed = false } in
      (
        record {
          distinct_id = distinct_id;
          properties = overridden known.properties hints.person_properties;
          continuity_id = continuity known.continuity_id (named hints.anon_distinct_id) distinct_id;
        },
        known.failed,
      )

module _ (lib : Library) where
  unfoldable pub bucketing_id : Subject → CompiledFlag lib → String
  bucketing_id s f = if f.flag.ensure_experience_continuity then s.continuity_id else s.distinct_id

  unfoldable pub evaluate_subject : Subject → CompiledFlag lib → ℤ → Evaluation
  evaluate_subject s f now = evaluate lib f (bucketing_id s f) s.properties now

  unfoldable pub needs_person : List (CompiledFlag lib) → Bool
  needs_person flags =
      any
        (λ (f : CompiledFlag lib).
          f.flag.active && (f.flag.ensure_experience_continuity || reads_properties lib f))
        flags
