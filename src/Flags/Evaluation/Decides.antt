-- ===== src/Flags/Evaluation/Decides.antt =====
-- Which condition group decides the value of a flag.
use hoglet.Prelude.{
  ℕ, ◌+◌, String, ◌≡◌, refl, ap, ◌∙◌, inl, inr, Bool, false, Option, none, some, List, [], ◌∷◌, ltb,
  if◌then◌else◌, Bool-cases,
}
use hoglet.Prelude.Int.{ℤ}
use hoglet.Json.{Object}
use hoglet.Flags.Library.{Library}
use hoglet.Flags.Evaluation.{
  ReasonCode, Evaluation, GroupMatch, FlagConditionGroup, CompiledFlag, is_match, is_out, rank,
  match_group, matched, unmatched, evaluate_from, evaluate, matches, out_of_rollout, no_match,
  disabled, out_of_rollout_bound, no_condition_match, visit,
}

module _ (lib : Library) (f : CompiledFlag lib) (id : String) (properties : Object) (now : ℤ) where
  -- The first group with an outcome, and its position.
  unfoldable pub first :
      (GroupMatch → Bool)
      → ℕ
      → List (FlagConditionGroup lib.Float)
      → Option (ℕ × FlagConditionGroup lib.Float)
  first wanted index [] = none
  first wanted index (group ∷ groups) =
      let rest = first wanted (index + 1) groups in
      if wanted (match_group lib f group id properties now) then some (index, group) else rest

  -- The first group out of the rollout is reported, where nothing closer was seen before.
  abbrev pub missed : ReasonCode → Option ℕ → Option (ℕ × FlagConditionGroup lib.Float) → Evaluation
  missed closest closest_index none = unmatched lib closest closest_index
  missed closest closest_index (some (index, group)) =
      if ltb (rank closest) (rank out_of_rollout_bound)
      then unmatched lib out_of_rollout_bound (some index)
      else unmatched lib closest closest_index

  abbrev pub decided : Option (ℕ × FlagConditionGroup lib.Float) → Evaluation → Evaluation
  decided none otherwise = otherwise
  decided (some (index, group)) otherwise = matched lib f group id index

  missed-rank :
      (closest : ReasonCode) (closest_index : Option ℕ)
      (out : Option (ℕ × FlagConditionGroup lib.Float))
      → ltb (rank closest) (rank out_of_rollout_bound) ≡ false
      → missed closest closest_index out ≡ unmatched lib closest closest_index
  missed-rank closest ci none far = refl
  missed-rank closest ci (some (index, group)) far = rw (far) refl

  visit-first :
      (index : ℕ) (closest : ReasonCode) (closest_index : Option ℕ)
      (group : FlagConditionGroup lib.Float) (rest : ReasonCode → Option ℕ → Evaluation)
      (found out : Option (ℕ × FlagConditionGroup lib.Float)) (m : GroupMatch)
      → ((c : ReasonCode) (i : Option ℕ) → rest c i ≡ decided found (missed c i out))
      → visit lib f id index closest closest_index group rest m
        ≡ decided
            (if is_match m then some (index, group) else found)
            (missed closest closest_index (if is_out m then some (index, group) else out))
  visit-first index closest ci group rest found out matches later = refl
  visit-first index closest ci group rest found out no_match later = later closest ci
  visit-first index closest ci group rest found out out_of_rollout later =
      elim (Bool-cases (ltb (rank closest) (rank out_of_rollout_bound))) [
        | inl near ↦
            rw (visit, near)
              (later out_of_rollout_bound (some index)
                ∙ ap (decided found) (missed-rank out_of_rollout_bound (some index) out refl))
        | inr far ↦
            rw (visit, far) (later closest ci ∙ ap (decided found) (missed-rank closest ci out far))
      ]

  evaluate_from-first :
      (index : ℕ) (closest : ReasonCode) (closest_index : Option ℕ)
      (groups : List (FlagConditionGroup lib.Float))
      → evaluate_from lib f id properties now index closest closest_index groups
        ≡ decided
            (first is_match index groups)
            (missed closest closest_index (first is_out index groups))
  unfolding evaluate_from first
  evaluate_from-first index closest ci [] = refl
  evaluate_from-first index closest ci (group ∷ groups) =
      visit-first index closest ci group
        (λ c i. evaluate_from lib f id properties now (index + 1) c i groups)
        (first is_match (index + 1) groups) (first is_out (index + 1) groups)
        (match_group lib f group id properties now)
        (λ c i. evaluate_from-first (index + 1) c i groups)

  pub evaluate-first : evaluate lib f id properties now ≡ (
      if f.flag.active
      then decided
          (first is_match 0 f.flag.filters.groups)
          (missed no_condition_match none (first is_out 0 f.flag.filters.groups))
      else unmatched lib disabled none)
  unfolding evaluate
  evaluate-first = rw (evaluate_from-first 0 no_condition_match none f.flag.filters.groups) refl
