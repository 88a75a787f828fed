-- ===== src/Projections/Tests.antt =====
-- Two persons, and the theorems on them.
use hoglet.Prelude.{
  String, ◌≡◌, refl, ◌≢◌, inl, inr, true, none, some, [], ◌∷◌, arith, eq_iff, Bool-cases, nat_eq,
  string_eq, ok, list_eq,
}
use hoglet.Prelude.Int.{pos}
use hoglet.Prelude.Text.{is_blank}
use hoglet.Prelude.Map.{lookup, pair_beq}
use hoglet.Json.{Value, Fields}
use hoglet.Event.{CapturedEvent}
use hoglet.Projections.Store.{TimeFormat, Person, Tables, resolve, person_of}
use hoglet.Projections.Properties.{changed_properties}
use hoglet.Projections.Properties.Changed.{last_value, is_named, lookup-changed_properties}
use hoglet.Projections.Views.{IsConsistent}
use hoglet.Projections.Merge.{merge_persons, refuse_both_identified, always}
use hoglet.Projections.Merge.Joins.{merge_persons-joins, merge_persons-keeps_apart}
use hoglet.Projections.Identity.{apply_identity_effects}
use hoglet.Projections.Identity.Consistent.{apply_identity_effects-IsConsistent}

abbrev clock : TimeFormat
clock = record { to_rfc3339 = λ t. "t"; sortable_time = λ t. "t" }

abbrev person_at : String → Person
person_at at = record {
  created_at = at;
  is_identified = true;
  properties = [];
  first_seen_key = at;
  last_seen = none;
}

abbrev two : Tables
two = record {
  persons = (("p", "a"), person_at "1") ∷ (("p", "b"), person_at "2") ∷ [];
  distinct_ids =
      (("p", "a"), record { person_id = "a"; seq = 0 })
      ∷ (("p", "b"), record { person_id = "b"; seq = 0 })
      ∷ [];
  groups = [];
  identity_seq = 0;
}

two-IsConsistent : IsConsistent two
unfolding resolve person_of lookup
two-IsConsistent = record {
  own = λ p i row h. ground (arith, eq_iff "a" i, eq_iff "b" i);
  leads = λ p d i h. elim (Bool-cases (pair_beq ("p", "a") (p, i))) [
    | inl a ↦ (person_at "1", rw (a) refl)
    | inr not_a ↦ elim (Bool-cases (pair_beq ("p", "b") (p, i))) [
      | inl b ↦ (person_at "2", rw (not_a, b) refl)
      | inr not_b ↦
          absurd
            (ground (arith, eq_iff "p" p, eq_iff "a" d, eq_iff "b" d, eq_iff "a" i, eq_iff "b" i))
    ]
  ];
}

abbrev set_plan : CapturedEvent
set_plan = record {
  uuid = 1;
  event = "$identify";
  distinct_id = "c";
  token = "tok";
  timestamp = pos 5;
  properties =
      ("$anon_distinct_id", Value.string "a")
      ∷ ("$set", Value.object (Fields.field "plan" (Value.string "pro") Fields.end))
      ∷ [];
}

apply_identity_effects-IsConsistent_example :
    (t' : Tables) × (apply_identity_effects clock (λ n. "n") two "p" set_plan ≡ ok t')
    × IsConsistent t'
unfolding is_blank
apply_identity_effects-IsConsistent_example =
    apply_identity_effects-IsConsistent clock (λ n. "n") "p" set_plan two two-IsConsistent refl

lookup-changed_properties_example :
    lookup "plan" (changed_properties set_plan []) ≡ some (Value.string "pro")
unfolding lookup last_value is_named
lookup-changed_properties_example = lookup-changed_properties set_plan [] "plan"

merge_persons-joins_example :
    (t' : Tables) × (merge_persons clock two "p" "a" "b" (pos 5) always ≡ ok t')
    × IsConsistent t'
    × (person_id : String) × (resolve t' "p" "b" ≡ some person_id)
    × (resolve t' "p" "a" ≡ some person_id)
merge_persons-joins_example = merge_persons-joins clock two "p" "a" "b" (pos 5) two-IsConsistent

merge_persons-keeps_apart_example :
    (t' : Tables) × (merge_persons clock two "p" "a" "b" (pos 5) refuse_both_identified ≡ ok t')
    × IsConsistent t'
    × (resolve t' "p" "a" ≢ resolve t' "p" "b")
unfolding resolve person_of lookup
merge_persons-keeps_apart_example =
    merge_persons-keeps_apart clock two "p" "a" "b" (pos 5) refuse_both_identified "a" "b" "a" "b"
      (person_at "1") (person_at "2") two-IsConsistent (λ e. ground (arith, e)) refl refl
      (λ e. ground (arith, eq_iff "a" "b")) refl refl refl refl
