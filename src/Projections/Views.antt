-- ===== src/Projections/Views.antt =====
-- What each statement changes of the two views, `resolve` and `person_of`, and the consistency of the
-- tables.
use hoglet.Prelude.Int.{ℤ}
use hoglet.Prelude.{
  ℕ, String, ◌≡◌, refl, inl, inr, false, ◌&&◌, none, some, [], arith, eq_iff, if◌then◌else◌,
  Bool-cases, Option-cases, ◌==◌, nat_eq, string_eq, ok, list_eq,
}
use hoglet.Prelude.Map.{
  ==_refl, lookup-remove, lookup-map_values, pair_eq, insert, lookup-insert, has_key,
}
use mathlib.Core.Option
use hoglet.Projections.Store.{
  Person, DistinctId, Tables, Key, resolve, person_of, update_person, repoint, delete_person,
  TimeFormat, ensure_person,
}

module _ (t : Tables) (project_id : String) where
  pub resolve-update_person :
      (id : String) (f : Person → Person) (p d : String)
      → resolve (update_person t project_id id f) p d ≡ resolve t p d
  unfolding resolve update_person
  resolve-update_person id f p d = refl

  pub person_of-update_person :
      (id : String) (f : Person → Person) (p i : String)
      → person_of (update_person t project_id id f) p i
        ≡ Option.map (λ r. if p == project_id && i == id then f r else r) (person_of t p i)
  unfolding person_of update_person
  person_of-update_person id f p i = lookup-map_values _ (p, i) t.persons

  pub resolve-repoint :
      (loser winner : String) (seq : ℕ) (p d : String)
      → resolve (repoint t project_id loser winner seq) p d
        ≡ Option.map (λ r. if p == project_id && r == loser then winner else r) (resolve t p d)
  unfolding resolve repoint
  resolve-repoint loser winner seq p d = ground (
    arith,
    lookup-map_values
        (λ (k : Key) (row : DistinctId).
          if k.0 == project_id && row.person_id == loser
          then record { person_id = winner; seq = seq }
          else row)
        (p, d) t.distinct_ids,
  )

  pub person_of-repoint :
      (loser winner : String) (seq : ℕ) (p i : String)
      → person_of (repoint t project_id loser winner seq) p i ≡ person_of t p i
  unfolding person_of repoint
  person_of-repoint loser winner seq p i = refl

  pub resolve-delete_person :
      (id p d : String) → resolve (delete_person t project_id id) p d ≡ resolve t p d
  unfolding resolve delete_person
  resolve-delete_person id p d = refl

  pub person_of-delete_person :
      (id p i : String)
      → person_of (delete_person t project_id id) p i
        ≡ (if project_id == p && id == i then none else person_of t p i)
  unfolding person_of delete_person
  person_of-delete_person id p i = lookup-remove (project_id, id) (p, i) t.persons

-- Every person is found under its own id, and every distinct id leads to a person.
pub record IsConsistent (t : Tables) : Type 0 where
  pub own : (p i : String) (row : Person) → person_of t p i ≡ some row → resolve t p i ≡ some i
  pub leads :
      (p d i : String) → resolve t p d ≡ some i → (row : Person) × (person_of t p i ≡ some row)

-- The tables after a statement, with what was there before.
pub record Ensured (t t' : Tables) (project_id distinct_id person_id : String) : Type 0 where
  pub consistent : IsConsistent t'
  pub resolves : resolve t' project_id distinct_id ≡ some person_id
  pub keeps_ids : (p d i : String) → resolve t p d ≡ some i → resolve t' p d ≡ some i
  pub keeps_persons :
      (p i : String) (row : Person) → person_of t p i ≡ some row → person_of t' p i ≡ some row

module _ (time : TimeFormat) (t : Tables) (project_id distinct_id : String) (timestamp : ℤ) where
  -- The row that `ensure_person` adds.
  abbrev pub fresh_row : Person
  fresh_row = record {
    created_at = time.to_rfc3339 timestamp;
    is_identified = false;
    properties = [];
    first_seen_key = distinct_id;
    last_seen = none;
  }

  abbrev pub added : Tables
  added = record t {
    persons = insert (project_id, distinct_id) fresh_row t.persons;
    distinct_ids =
        insert (project_id, distinct_id) (record { person_id = distinct_id; seq = 0 })
          t.distinct_ids;
  }

  resolve-added :
      (p d : String)
      → resolve added p d
        ≡ (if project_id == p && distinct_id == d then some distinct_id else resolve t p d)
  unfolding resolve
  resolve-added p d = ground (
    arith,
    lookup-insert (project_id, distinct_id) (p, d) (record { person_id = distinct_id; seq = 0 })
        t.distinct_ids,
  )

  person_of-added :
      (p i : String)
      → person_of added p i
        ≡ (if project_id == p && distinct_id == i then some fresh_row else person_of t p i)
  unfolding person_of
  person_of-added p i = lookup-insert (project_id, distinct_id) (p, i) fresh_row t.persons

  not_taken :
      IsConsistent t
      → resolve t project_id distinct_id ≡ none
      → has_key (project_id, distinct_id) t.persons ≡ false
  unfolding has_key person_of
  not_taken c unknown = elim (Option-cases (person_of t project_id distinct_id)) [
    | inl free ↦ ground arith
    | inr (row, taken) ↦ ground (arith, c.own project_id distinct_id row taken)
  ]

  leads-added :
      IsConsistent t
      → (p d i : String) → resolve added p d ≡ some i
      → (row : Person) × (person_of added p i ≡ some row)
  leads-added c p d i h = elim (Bool-cases (project_id == p && distinct_id == d)) [
    | inl new ↦
        (fresh_row, ground (arith, resolve-added p d, person_of-added p i, ==_refl distinct_id))
    | inr old ↦
        let (row, found) = c.leads p d i (ground (arith, resolve-added p d)) in
        elim (Bool-cases (project_id == p && distinct_id == i)) [
          | inl same ↦ (fresh_row, ground (arith, person_of-added p i))
          | inr other ↦ (row, ground (arith, person_of-added p i))
        ]
  ]

  -- From consistent tables `ensure_person` does not fail, and changes nothing that is there.
  pub ensure_person-Ensured :
      IsConsistent t
      → (t' : Tables) × (person_id : String) × (ensure_person time t project_id distinct_id
            timestamp
          ≡ ok (t', person_id))
        × Ensured t t' project_id distinct_id person_id
  unfolding ensure_person
  ensure_person-Ensured c = elim (Option-cases (resolve t project_id distinct_id)) [
    | inr (person_id, known) ↦ (
      t,
      person_id,
      rw (known, ensure_person) refl,
      record {
        consistent = c;
        resolves = known;
        keeps_ids = λ p d i h. h;
        keeps_persons = λ p i row h. h;
      },
    )
    | inl unknown ↦ (
      added,
      distinct_id,
      ground (arith, not_taken c unknown),
      record {
        consistent = record {
          own = λ p i row h.
              ground (
                arith,
                resolve-added p i,
                person_of-added p i,
                c.own p i row,
                eq_iff distinct_id i,
              );
          leads = leads-added c;
        };
        resolves =
            ground (
              arith,
              resolve-added project_id distinct_id,
              ==_refl project_id,
              ==_refl distinct_id,
            );
        keeps_ids =
            λ p d i h. ground (arith, resolve-added p d, eq_iff project_id p, eq_iff distinct_id d);
        keeps_persons = λ p i row h.
            ground (
              arith,
              person_of-added p i,
              c.own p i row,
              eq_iff project_id p,
              eq_iff distinct_id i,
            );
      },
    )
  ]
