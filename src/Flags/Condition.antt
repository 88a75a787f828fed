-- ===== src/Flags/Condition.antt =====
-- src/flags/eval.rs: whether the properties of a person meet one filter.
pub mod Opposites
use hoglet.Prelude.{
  ℕ, String, Bool, true, false, not, ◌&&◌, ◌||◌, Option, none, some, List, [], ◌∷◌, if◌then◌else◌,
  ◌==◌, nat_eq, string_eq, any, list_eq,
}
use hoglet.Prelude.Int.{ℤ, ltb_ℤ}
use hoglet.Prelude.Map.{Map, lookup}
use hoglet.Prelude.Text.{codes_ltb}
use hoglet.Json.{Value, Object, as_array}
use hoglet.Flags.Library.{Library, Ordering, less, equal, greater}
use hoglet.Flags.Text.{
  value_to_string, to_ascii_lowercase, contains, as_number, is_truthy, is_truthy_or_falsy,
}
use hoglet.Flags.Dates.{flag_date, property_date}

pub data PropertyOperator : Type 0 where
  exact is_not icontains not_icontains regex not_regex : PropertyOperator
  gt gte lt lte is_set is_not_set is_date_before is_date_after : PropertyOperator

pub data PropertySource : Type 0 where
  event person : PropertySource

pub record PropertyFilter : Type 0 where
  pub key : String
  pub source : PropertySource
  pub operator : PropertyOperator
  pub value : Value

abbrev pub is_null : Value → Bool
is_null Value.null = true
is_null v = false

abbrev pub is_empty_array : Value → Bool
is_empty_array v = elim (as_array v) [
  | none ↦ false
  | some vs ↦ elim vs [ [] ↦ true | w ∷ ws ↦ false ]
]

module _ (lib : Library) where
  abbrev pub lower : Value → List ℕ
  lower v = lib.to_lowercase (value_to_string lib v)

  unfoldable pub exact_match : Value → Value → Bool
  exact_match expected actual =
      if is_empty_array expected || is_truthy_or_falsy expected
      then (if is_truthy expected then is_truthy actual else not (is_truthy actual))
      else (elim (as_array expected) [
        | some candidates ↦ any (λ candidate. lower candidate == lower actual) candidates
        | none ↦ lower expected == lower actual
      ])

  abbrev pub icontains_match : Value → Value → Bool
  icontains_match expected actual =
      contains (to_ascii_lowercase (value_to_string lib actual))
        (to_ascii_lowercase (value_to_string lib expected))

  abbrev pub cmp_text : List ℕ → List ℕ → Ordering
  cmp_text a b = if codes_ltb a b then less else if codes_ltb b a then greater else equal

  -- How the property compares with the filter's value.
  unfoldable pub ordering_of : Value → Value → Option Ordering
  ordering_of expected actual = elim (as_number lib expected) [
    | none ↦ some (cmp_text (value_to_string lib actual) (value_to_string lib expected))
    | some e ↦ elim (as_number lib actual) [
      | none ↦ some (cmp_text (value_to_string lib actual) (value_to_string lib expected))
      | some a ↦ lib.partial_cmp a e
    ]
  ]

  abbrev pub holds : PropertyOperator → Ordering → Bool
  holds gt greater = true
  holds gte greater = true
  holds gte equal = true
  holds lt less = true
  holds lte less = true
  holds lte equal = true
  holds op ordering = false

  abbrev pub compare : PropertyOperator → Value → Value → Bool
  compare op expected actual = elim (ordering_of expected actual) [
    | none ↦ false
    | some ordering ↦ holds op ordering
  ]

  -- The program of a pattern, from the compiled ones where it is there.
  unfoldable pub program : Map (List ℕ) (Option lib.Regex) → List ℕ → Option lib.Regex
  program regexes pattern = elim (lookup pattern regexes) [
    | some compiled ↦ compiled
    | none ↦ lib.build_regex pattern
  ]

  abbrev pub found : Map (List ℕ) (Option lib.Regex) → Value → Value → Option Bool
  found regexes expected actual = elim (program regexes (value_to_string lib expected)) [
    | none ↦ none
    | some built ↦ some (lib.is_match built (value_to_string lib actual))
  ]

  abbrev pub dates : ℤ → Value → Value → Option (ℤ × ℤ)
  dates now expected actual = elim (flag_date lib now expected) [
    | none ↦ none
    | some boundary ↦ elim (property_date lib actual) [
      | none ↦ none
      | some at ↦ some (boundary, at)
    ]
  ]

  -- The `match` on the operator; the filter's value comes before the property. A null property
  -- meets only the operators above the guard `actual.is_null()`.
  unfoldable pub match_operator :
      Map (List ℕ) (Option lib.Regex) → ℤ → PropertyOperator → Value → Value → Bool
  match_operator regexes now is_set expected actual = true
  match_operator regexes now is_not_set expected actual = false
  match_operator regexes now exact expected actual = exact_match expected actual
  match_operator regexes now is_not expected actual = not (exact_match expected actual)
  match_operator regexes now icontains expected actual =
      not (is_null actual) && icontains_match expected actual
  match_operator regexes now not_icontains expected actual =
      not (is_null actual) && not (icontains_match expected actual)
  match_operator regexes now regex expected actual =
      not (is_null actual) && elim (found regexes expected actual) [ none ↦ false | some b ↦ b ]
  match_operator regexes now not_regex expected actual =
      not (is_null actual) && elim (found regexes expected actual) [ none ↦ false | some b ↦ not b ]
  match_operator regexes now is_date_before expected actual =
      not (is_null actual)
      && elim (dates now expected actual) [ none ↦ false | some d ↦ ltb_ℤ d.1 d.0 ]
  match_operator regexes now is_date_after expected actual =
      not (is_null actual)
      && elim (dates now expected actual) [ none ↦ false | some d ↦ ltb_ℤ d.0 d.1 ]
  match_operator regexes now op expected actual = not (is_null actual) && compare op expected actual

  abbrev pub is_is_not_set : PropertyOperator → Bool
  is_is_not_set is_not_set = true
  is_is_not_set op = false

  unfoldable pub match_property :
      PropertyFilter → Object → Map (List ℕ) (Option lib.Regex) → ℤ → Bool
  match_property filter properties regexes now = elim (lookup filter.key properties) [
    | none ↦ is_is_not_set filter.operator
    | some actual ↦ match_operator regexes now filter.operator filter.value actual
  ]
