-- ===== src/Projections/Identity/Consistent.antt =====
-- One event on consistent tables: it is applied, and they stay consistent.
use hoglet.Prelude.{
  String, ◌≡◌, refl, inl, inr, false, ◌&&◌, arith, if◌then◌else◌, Bool-cases, Option-cases, ◌==◌,
  nat_eq, string_eq, Result, ok, list_eq,
}
use hoglet.Prelude.Text.{is_blank}
use hoglet.Json.{Number}
use hoglet.Event.{CapturedEvent}
use hoglet.Projections.Store.{
  TimeFormat, ProjectionError, Person, Tables, resolve, person_of, update_person, mark_identified,
}
use hoglet.Projections.Properties.{
  apply_group, apply_person_properties, changed_properties, is_none, property_object,
  property_array,
}
use hoglet.Projections.Views.{
  IsConsistent, ensure_person-Ensured, resolve-update_person, person_of-update_person,
}
use hoglet.Projections.Merge.{MergeGuard, refuse_identified_source, refuse_both_identified, always}
use hoglet.Projections.Merge.Joins.{merge_persons-Steps}
use hoglet.Projections.Identity.{
  other_id, seen_at, merge_other, apply_name, apply_identity, apply_identity_effects,
}

-- The code returns tables, and they are consistent.
pub Keeps : Result Tables ProjectionError → Type 0
Keeps r = (t : Tables) × (r ≡ ok t) × IsConsistent t

update_person-IsConsistent :
    (t : Tables) (p id : String) (f : Person → Person)
    → IsConsistent t
    → IsConsistent (update_person t p id f)
update_person-IsConsistent t p id f c = record {
  own = λ q i row h. elim (Option-cases (person_of t q i)) [
    | inl free ↦ absurd (ground (arith, rw (free) at (person_of-update_person t p id f q i)))
    | inr (r, found) ↦ rw (resolve-update_person t p id f q i) (c.own q i r found)
  ];
  leads = λ q d i h.
      let (r, found) = c.leads q d i (rw (resolve-update_person t p id f q d) at h) in
      (
        (if q == p && i == id then f r else r),
        rw (person_of-update_person t p id f q i, found) refl,
      );
}

mark_identified-IsConsistent :
    (t : Tables) (p d : String) → IsConsistent t → IsConsistent (mark_identified t p d)
unfolding mark_identified
mark_identified-IsConsistent t p d c = elim (Option-cases (resolve t p d)) [
  | inl unknown ↦ rw (mark_identified, unknown) c
  | inr (id, known) ↦ rw (mark_identified, known) (update_person-IsConsistent t p id _ c)
]

module _ (time : TimeFormat) (number_text : Number → String) (t : Tables) (p : String)
    (event : CapturedEvent) where
  apply_group-persons : (apply_group time number_text t p event).persons ≡ t.persons
  unfolding apply_group
  apply_group-persons = ground arith

  apply_group-distinct_ids : (apply_group time number_text t p event).distinct_ids ≡ t.distinct_ids
  unfolding apply_group
  apply_group-distinct_ids = ground arith

  apply_group-IsConsistent : IsConsistent t → IsConsistent (apply_group time number_text t p event)
  unfolding resolve person_of
  apply_group-IsConsistent c = record {
    own =
        λ q i row h. rw (apply_group-distinct_ids) (c.own q i row (rw (apply_group-persons) at h));
    leads = λ q d i h.
        let (row, found) = c.leads q d i (rw (apply_group-distinct_ids) at h) in
        (row, rw (apply_group-persons) found);
  }

merge_other-Keeps :
    (time : TimeFormat) (t : Tables) (p : String) (event : CapturedEvent) (key : String)
    (guard : MergeGuard)
    → IsConsistent t
    → Keeps (merge_other time t p event key guard)
unfolding merge_other Keeps
merge_other-Keeps time t p event key guard c = elim (Option-cases (other_id event key)) [
  | inl absent ↦ (t, rw (merge_other, absent) refl, c)
  | inr (other, found) ↦
      let (t', runs, c', _) =
        merge_persons-Steps time t p other event.distinct_id event.timestamp guard c in
      (t', rw (merge_other, found) runs, c')
]

module _ (time : TimeFormat) (number_text : Number → String) (p : String)
    (event : CapturedEvent) where
  apply_person_properties-Keeps :
      (t : Tables) → IsConsistent t → Keeps (apply_person_properties time t p event)
  unfolding apply_person_properties Keeps
  apply_person_properties-Keeps t c =
      let (a, id, runs, e) = ensure_person-Ensured time t p event.distinct_id event.timestamp c in
      let (row, found) = e.consistent.leads p event.distinct_id id e.resolves in
      let changed =
        update_person-IsConsistent a p id
          (λ r. record r { properties = changed_properties event row.properties }) e.consistent in
      elim (Bool-cases (
        is_none (property_object event "$set_once")
        && (is_none (property_object event "$set") && is_none (property_array event "$unset")))) [
          | inl nothing ↦ (t, rw (nothing) refl, c)
          | inr some_set ↦ (_, rw (some_set, runs, found) refl, changed)
        ]

  apply_name-Keeps : (t : Tables) → IsConsistent t → Keeps (apply_name time number_text t p event)
  unfolding apply_name Keeps
  apply_name-Keeps t c =
      let (a, runs_a, ca) =
        merge_other-Keeps time t p event "$anon_distinct_id" refuse_identified_source c in
      let (b, runs_b, cb) = merge_other-Keeps time t p event "alias" refuse_both_identified c in
      let (d, runs_d, cd) = merge_other-Keeps time t p event "alias" always c in
      elim (Bool-cases (event.event == "$identify")) [
        | inl this ↦ (
          mark_identified a p event.distinct_id,
          rw (this, runs_a) refl,
          mark_identified-IsConsistent a p event.distinct_id ca,
        )
        | inr not1 ↦ elim (Bool-cases (event.event == "$create_alias")) [
          | inl this ↦ (
            mark_identified b p event.distinct_id,
            rw (not1, this, runs_b) refl,
            mark_identified-IsConsistent b p event.distinct_id cb,
          )
          | inr not2 ↦ elim (Bool-cases (event.event == "$merge_dangerously")) [
            | inl this ↦ (d, rw (not1, not2, this, runs_d) refl, cd)
            | inr not3 ↦ elim (Bool-cases (event.event == "$groupidentify")) [
              | inl this ↦ (
                apply_group time number_text t p event,
                rw (not1, not2, not3, this) refl,
                apply_group-IsConsistent time number_text t p event c,
              )
              | inr not4 ↦ (t, rw (not1, not2, not3, not4) refl, c)
            ]
          ]
        ]
      ]

  apply_identity-Keeps :
      (t : Tables) → IsConsistent t → Keeps (apply_identity time number_text t p event)
  unfolding apply_identity Keeps
  apply_identity-Keeps t c =
      let (a, id, runs, e) = ensure_person-Ensured time t p event.distinct_id event.timestamp c in
      let seen =
        update_person-IsConsistent a p id (seen_at (time.sortable_time event.timestamp))
          e.consistent in
      let (named, runs_named, cn) =
        apply_name-Keeps (update_person a p id (seen_at (time.sortable_time event.timestamp)))
          seen in
      let (done, runs_done, cd) = apply_person_properties-Keeps named cn in
      (done, rw (runs, runs_named) runs_done, cd)

  -- An event whose project id is not blank is applied to consistent tables without an error, and the
  -- tables stay consistent: every person is found under its own id, every distinct id leads to a person.
  pub apply_identity_effects-IsConsistent :
      (t : Tables)
      → IsConsistent t
      → is_blank p ≡ false
      → (t' : Tables) × (apply_identity_effects time number_text t p event ≡ ok t')
        × IsConsistent t'
  unfolding apply_identity_effects Keeps
  apply_identity_effects-IsConsistent t c named =
      let (t', runs, c') = apply_identity-Keeps t c in (t', rw (named) runs, c')
