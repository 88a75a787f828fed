-- ===== src/Flags/Condition/Opposites.antt =====
-- How the operators of a filter relate.
use hoglet.Prelude.{ℕ, ◌≡◌, Bool, true, false, not, ◌&&◌, Option, none, some, List, arith}
use hoglet.Prelude.Int.{ℤ}
use hoglet.Prelude.Map.{Map}
use hoglet.Json.{Value}
use hoglet.Flags.Library.{Library}
use hoglet.Flags.Text.{value_to_string}
use hoglet.Flags.Condition.{
  PropertyOperator, is_null, match_operator, program, ordering_of, exact, is_not, icontains,
  not_icontains, regex, not_regex, gt, gte, lt, lte, is_set, is_not_set, is_date_before,
  is_date_after,
}

-- The negation that PostHog gives an operator.
unfoldable pub opposite : PropertyOperator → PropertyOperator
opposite exact = is_not
opposite is_not = exact
opposite icontains = not_icontains
opposite not_icontains = icontains
opposite regex = not_regex
opposite not_regex = regex
opposite gt = lte
opposite lte = gt
opposite gte = lt
opposite lt = gte
opposite is_set = is_not_set
opposite is_not_set = is_set
opposite is_date_before = is_date_after
opposite is_date_after = is_date_before

module _ (lib : Library) (regexes : Map (List ℕ) (Option lib.Regex)) (now : ℤ)
    (expected actual : Value) where
  -- Whether an operator can decide at all: a null property, a pattern that is no regular expression, an
  -- incomparable number and a text that is no date decide nothing.
  unfoldable pub decides : PropertyOperator → Bool
  decides exact = true
  decides is_not = true
  decides is_set = true
  decides is_not_set = true
  decides icontains = not (is_null actual)
  decides not_icontains = not (is_null actual)
  decides regex =
      not (is_null actual)
      && elim (program lib regexes (value_to_string lib expected)) [ none ↦ false | some _ ↦ true ]
  decides not_regex =
      not (is_null actual)
      && elim (program lib regexes (value_to_string lib expected)) [ none ↦ false | some _ ↦ true ]
  decides is_date_before = false
  decides is_date_after = false
  decides op =
      not (is_null actual)
      && elim (ordering_of lib expected actual) [ none ↦ false | some _ ↦ true ]

  abbrev pub is_date : PropertyOperator → Bool
  is_date is_date_before = true
  is_date is_date_after = true
  is_date op = false

  -- Where an operator other than a date comparison can decide (a property that is not null where the
  -- operator looks at its value, a pattern that compiles, values that compare), its opposite has the
  -- opposite answer; where it cannot, its opposite does not hold.
  pub match_operator-opposite :
      (op : PropertyOperator)
      → is_date op ≡ false
      → match_operator lib regexes now (opposite op) expected actual
        ≡ (decides op && not (match_operator lib regexes now op expected actual))
  unfolding opposite decides match_operator
  match_operator-opposite exact h = ground arith
  match_operator-opposite is_not h = ground arith
  match_operator-opposite icontains h = ground arith
  match_operator-opposite not_icontains h = ground arith
  match_operator-opposite regex h = ground arith
  match_operator-opposite not_regex h = ground arith
  match_operator-opposite gt h = ground arith
  match_operator-opposite gte h = ground arith
  match_operator-opposite lt h = ground arith
  match_operator-opposite lte h = ground arith
  match_operator-opposite is_set h = ground arith
  match_operator-opposite is_not_set h = ground arith
  match_operator-opposite is_date_before h = absurd (ground (arith, h))
  match_operator-opposite is_date_after h = absurd (ground (arith, h))
