-- ===== src/Projections/Properties/Changed.antt =====
-- What `$set_once`, `$set` and `$unset` make of one property.
use hoglet.Prelude.{
  String, ◌≡◌, refl, inl, inr, Bool, false, ◌||◌, Option, none, some, List, [], ◌∷◌, arith, eq_iff,
  if◌then◌else◌, Option-cases, ◌==◌, nat_eq, string_eq, list_eq,
}
use hoglet.Prelude.Map.{lookup, insert, remove, has_key, lookup-insert, lookup-remove}
use hoglet.Json.{Value, Object, as_str}
use hoglet.Event.{CapturedEvent}
use hoglet.Projections.Properties.{
  overlay, underlay, unset, changed_properties, property_object, property_array, or_empty,
  or_no_keys,
}

abbrev pub or_else {ℓ} : {A : Type ℓ} → Option A → Option A → Option A
or_else none b = b
or_else (some a) b = some a

-- The value that the last entry of a key has.
unfoldable pub last_value : String → Object → Option Value
last_value k [] = none
last_value k ((j, v) ∷ o) = or_else (last_value k o) (if j == k then some v else none)

-- Whether a key is among the texts.
unfoldable pub is_named : String → List Value → Bool
is_named k [] = false
is_named k (key ∷ keys) = elim (as_str key) [
  | none ↦ is_named k keys
  | some j ↦ j == k || is_named k keys
]

lookup-overlay :
    (k : String) (base other : Object)
    → lookup k (overlay base other) ≡ or_else (last_value k other) (lookup k base)
unfolding overlay last_value
lookup-overlay k base [] = refl
lookup-overlay k base ((j, v) ∷ other) =
    ground (arith, lookup-overlay k (insert j v base) other, lookup-insert j k v base)

lookup-underlay :
    (k : String) (base other : Object)
    → lookup k (underlay base other) ≡ or_else (lookup k base) (lookup k other)
unfolding underlay has_key lookup
lookup-underlay k base [] = elim (Option-cases (lookup k base)) [
  | inl absent ↦ rw (absent) refl
  | inr (v, found) ↦ rw (found) refl
]
lookup-underlay k base ((j, v) ∷ other) = ground (
  arith,
  lookup-underlay k base other,
  lookup-underlay k (insert j v base) other,
  lookup-insert j k v base,
  eq_iff j k,
)

lookup-unset :
    (k : String) (base : Object) (keys : List Value)
    → lookup k (unset base keys) ≡ (if is_named k keys then none else lookup k base)
unfolding unset is_named
lookup-unset k base [] = refl
lookup-unset k base (key ∷ keys) = elim (Option-cases (as_str key)) [
  | inl absent ↦ ground (arith, lookup-unset k base keys)
  | inr (j, text) ↦ ground (arith, lookup-unset k (remove j base) keys, lookup-remove j k base)
]

-- Of one property after an event: none if `$unset` names it, else what `$set` gives it, else what it was,
-- and only for a property that was not there what `$set_once` gives it.
pub lookup-changed_properties :
    (event : CapturedEvent) (properties : Object) (k : String)
    → lookup k (changed_properties event properties) ≡ (
        if is_named k (or_no_keys (property_array event "$unset"))
        then none
        else or_else (last_value k (or_empty (property_object event "$set"))) (
            or_else
              (lookup k properties)
              (lookup k (or_empty (property_object event "$set_once")))))
unfolding changed_properties
lookup-changed_properties event properties k =
    rw (lookup-unset k _ _, lookup-overlay k _ _, lookup-underlay k _ _) refl
