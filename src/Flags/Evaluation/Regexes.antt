-- ===== src/Flags/Evaluation/Regexes.antt =====
-- The regular expressions that a compiled flag holds are those of its patterns.
use hoglet.Prelude.{
  ℕ, ◌≡◌, refl, ap, inl, inr, not, ◌&&◌, Option, some, List, [], ◌∷◌, arith, Bool-cases,
  Option-cases, ◌==◌, nat_eq, string_eq, list_eq, list_beq_iff,
}
use hoglet.Prelude.Map.{Map, lookup, insert, has_key, lookup-insert}
use hoglet.Flags.Library.{Library}
use hoglet.Flags.Text.{value_to_string}
use hoglet.Flags.Condition.{
  PropertyOperator, PropertyFilter, program, match_property, match_operator, exact, is_not,
  icontains, not_icontains, regex, not_regex, gt, gte, lt, lte, is_set, is_not_set, is_date_before,
  is_date_after,
}
use hoglet.Flags.Evaluation.{
  FlagConditionGroup, compile_filters, compile_groups, is_regex_operator, compile, ℤ, FeatureFlag,
  Value, Object,
}

module _ (lib : Library) where
  pub IsFaithful : Map (List ℕ) (Option lib.Regex) → Type 0
  IsFaithful regexes =
      (pattern : List ℕ) (built : Option lib.Regex)
      → lookup pattern regexes ≡ some built
      → built ≡ lib.build_regex pattern

  insert-IsFaithful :
      (regexes : Map (List ℕ) (Option lib.Regex)) (pattern : List ℕ)
      → IsFaithful regexes
      → IsFaithful (insert pattern (lib.build_regex pattern) regexes)
  unfolding IsFaithful
  insert-IsFaithful regexes pattern h other built found = elim (Bool-cases (pattern == other)) [
    | inl same ↦
        let it : pattern ≡ other = (list_beq_iff pattern other).0 same in
        let at =
          rw (lookup-insert pattern other (lib.build_regex pattern) regexes, same) at found in
        ground (arith, at, ap lib.build_regex it)
    | inr differ ↦
        h other built
          (rw (lookup-insert pattern other (lib.build_regex pattern) regexes, differ) at found)
  ]

  compile_filters-IsFaithful :
      (filters : List PropertyFilter) (regexes : Map (List ℕ) (Option lib.Regex))
      → IsFaithful regexes
      → IsFaithful (compile_filters lib filters regexes)
  unfolding compile_filters
  compile_filters-IsFaithful [] regexes ok_so_far = ok_so_far
  compile_filters-IsFaithful (filter ∷ filters) regexes ok_so_far =
      elim (Bool-cases (
        is_regex_operator filter.operator
        && not (has_key (value_to_string lib filter.value) regexes))) [
          | inl new ↦
              rw (compile_filters, new)
                (compile_filters-IsFaithful filters _
                  (insert-IsFaithful regexes (value_to_string lib filter.value) ok_so_far))
          | inr known ↦
              rw (compile_filters, known) (compile_filters-IsFaithful filters regexes ok_so_far)
        ]

  compile_groups-IsFaithful :
      (groups : List (FlagConditionGroup lib.Float)) (regexes : Map (List ℕ) (Option lib.Regex))
      → IsFaithful regexes
      → IsFaithful (compile_groups lib groups regexes)
  unfolding compile_groups
  compile_groups-IsFaithful [] regexes h = h
  compile_groups-IsFaithful (group ∷ groups) regexes h =
      compile_groups-IsFaithful groups (compile_filters lib group.properties regexes)
        (compile_filters-IsFaithful group.properties regexes h)

  program-IsFaithful :
      (regexes : Map (List ℕ) (Option lib.Regex)) (pattern : List ℕ)
      → IsFaithful regexes
      → program lib regexes pattern ≡ lib.build_regex pattern
  unfolding program IsFaithful
  program-IsFaithful regexes pattern h = elim (Option-cases (lookup pattern regexes)) [
    | inl absent ↦ rw (program, absent) refl
    | inr (built, there) ↦ rw (program, there) (h pattern built there)
  ]

  match_operator-program :
      (regexes : Map (List ℕ) (Option lib.Regex)) (now : ℤ) (op : PropertyOperator)
      (expected actual : Value)
      → IsFaithful regexes
      → match_operator lib regexes now op expected actual
        ≡ match_operator lib [] now op expected actual
  unfolding match_operator
  match_operator-program regexes now regex e a h =
      rw (program-IsFaithful regexes (value_to_string lib e) h) (unfold program lookup in refl)
  match_operator-program regexes now not_regex e a h =
      rw (program-IsFaithful regexes (value_to_string lib e) h) (unfold program lookup in refl)
  match_operator-program regexes now exact e a h = refl
  match_operator-program regexes now is_not e a h = refl
  match_operator-program regexes now icontains e a h = refl
  match_operator-program regexes now not_icontains e a h = refl
  match_operator-program regexes now gt e a h = refl
  match_operator-program regexes now gte e a h = refl
  match_operator-program regexes now lt e a h = refl
  match_operator-program regexes now lte e a h = refl
  match_operator-program regexes now is_set e a h = refl
  match_operator-program regexes now is_not_set e a h = refl
  match_operator-program regexes now is_date_before e a h = refl
  match_operator-program regexes now is_date_after e a h = refl

  -- A compiled flag evaluates its filters as if every pattern were compiled anew: the programs that it
  -- holds change no answer.
  pub match_property-compile :
      (flag : FeatureFlag lib.Float) (version : ℤ) (filter : PropertyFilter) (properties : Object)
      (now : ℤ)
      → match_property lib filter properties (compile lib flag version).regexes now
        ≡ match_property lib filter properties [] now
  unfolding compile match_property
  match_property-compile flag version filter properties now =
      elim (Option-cases (lookup filter.key properties)) [
        | inl absent ↦ rw (match_property, absent) refl
        | inr (actual, there) ↦
            rw (match_property, there)
              (match_operator-program (compile_groups lib flag.filters.groups []) now
                filter.operator filter.value actual
                (compile_groups-IsFaithful flag.filters.groups []
                  (unfold IsFaithful lookup in λ p b none_there. ground (arith, none_there))))
      ]
