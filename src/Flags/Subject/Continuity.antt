-- ===== src/Flags/Subject/Continuity.antt =====
-- What the stored person changes of an evaluation.
use hoglet.Prelude.{
  ℕ, ◌+◌, String, ◌≡◌, refl, sym, ap, ◌∙◌, inl, inr, true, false, not, Option, none, some, List, [],
  ◌∷◌, arith, ltb, if◌then◌else◌, Bool-cases, ◌==◌, nat_eq, string_eq, length, any, list_eq,
}
use hoglet.Prelude.Int.{ℤ}
use hoglet.Json.{Object}
use hoglet.Flags.Library.{Library}
use hoglet.Flags.Condition.{PropertyFilter}
use hoglet.Flags.Evaluation.{
  ReasonCode, Evaluation, GroupMatch, FlagConditionGroup, CompiledFlag, evaluate, evaluate_from,
  match_group, matches_all, reads_properties, has_properties, visit, rank, unmatched, matches,
  no_match, out_of_rollout, out_of_rollout_bound, no_condition_match, disabled,
}
use hoglet.Flags.Subject.{Subject, bucketing_id, evaluate_subject, needs_person}

module _ (lib : Library) (f : CompiledFlag lib) (id : String) (now : ℤ) (p q : Object) where
  matches_all-bare :
      (filters : List PropertyFilter) (o : Object)
      → not (length filters == 0) ≡ false
      → matches_all lib filters o f.regexes now ≡ true
  matches_all-bare [] o bare = refl
  matches_all-bare (filter ∷ filters) o bare = absurd (ground (arith, bare))

  match_group-any_properties :
      (group : FlagConditionGroup lib.Float)
      → has_properties lib group ≡ false
      → match_group lib f group id p now ≡ match_group lib f group id q now
  unfolding match_group
  match_group-any_properties group bare =
      rw (matches_all-bare group.properties p bare, matches_all-bare group.properties q bare) refl

  visit-pointwise :
      (index : ℕ) (closest : ReasonCode) (closest_index : Option ℕ)
      (group : FlagConditionGroup lib.Float) (r s : ReasonCode → Option ℕ → Evaluation)
      (m : GroupMatch)
      → ((c : ReasonCode) (i : Option ℕ) → r c i ≡ s c i)
      → visit lib f id index closest closest_index group r m
        ≡ visit lib f id index closest closest_index group s m
  visit-pointwise index closest ci group r s matches same = refl
  visit-pointwise index closest ci group r s no_match same = same closest ci
  visit-pointwise index closest ci group r s out_of_rollout same =
      elim (Bool-cases (ltb (rank closest) (rank out_of_rollout_bound))) [
        | inl near ↦ rw (visit, near) (same out_of_rollout_bound (some index))
        | inr far ↦ rw (visit, far) (same closest ci)
      ]

  evaluate_from-any_properties :
      (index : ℕ) (closest : ReasonCode) (closest_index : Option ℕ)
      (groups : List (FlagConditionGroup lib.Float))
      → any (has_properties lib) groups ≡ false
      → evaluate_from lib f id p now index closest closest_index groups
        ≡ evaluate_from lib f id q now index closest closest_index groups
  unfolding evaluate_from
  evaluate_from-any_properties index closest ci [] bare = refl
  evaluate_from-any_properties index closest ci (group ∷ groups) bare =
      rw (match_group-any_properties group (ground (arith, bare))) (
        visit-pointwise index closest ci group _ _ (match_group lib f group id q now)
          (λ c i. evaluate_from-any_properties (index + 1) c i groups (ground (arith, bare))))

module _ (lib : Library) (f : CompiledFlag lib) (now : ℤ) where
  evaluate-inactive :
      (id : String) (o : Object)
      → f.flag.active ≡ false
      → evaluate lib f id o now ≡ unmatched lib disabled none
  unfolding evaluate
  evaluate-inactive id o inactive = ground (arith, inactive)

  evaluate-any_properties :
      (id : String) (p q : Object)
      → reads_properties lib f ≡ false
      → evaluate lib f id p now ≡ evaluate lib f id q now
  unfolding evaluate reads_properties
  evaluate-any_properties id p q bare =
      ap (λ (e : Evaluation). if f.flag.active then e else unmatched lib disabled none)
        (evaluate_from-any_properties lib f id now p q 0 no_condition_match none
          f.flag.filters.groups bare)

  bucketing_id-steady :
      (s : Subject)
      → f.flag.ensure_experience_continuity ≡ false
      → bucketing_id lib s f ≡ s.distinct_id
  unfolding bucketing_id
  bucketing_id-steady s steady = ground (arith, steady)

-- Where `needs_person` says of one flag that it needs no stored person, its value depends on the distinct
-- id alone: two subjects with the same one get the same evaluation, whatever the store knows of them.
pub evaluate_subject-needs_person :
    (lib : Library) (f : CompiledFlag lib) (a b : Subject) (now : ℤ)
    → needs_person lib (f ∷ []) ≡ false
    → a.distinct_id ≡ b.distinct_id
    → evaluate_subject lib a f now ≡ evaluate_subject lib b f now
unfolding evaluate_subject needs_person
evaluate_subject-needs_person lib f a b now free same = elim (Bool-cases f.flag.active) [
  | inr inactive ↦
      evaluate-inactive lib f now (bucketing_id lib a f) a.properties inactive
      ∙ sym (evaluate-inactive lib f now (bucketing_id lib b f) b.properties inactive)
  | inl active ↦
      let steady : f.flag.ensure_experience_continuity ≡ false = ground (arith, free) in
      let bare : reads_properties lib f ≡ false = ground (arith, free) in
      rw (bucketing_id-steady lib f now a steady, bucketing_id-steady lib f now b steady, same)
        (evaluate-any_properties lib f now b.distinct_id a.properties b.properties bare)
]
