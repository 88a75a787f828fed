-- ===== src/Query/Formula/Tests.antt =====
-- src/query/formula.rs: runs of the formulas, with whole numbers for `f64`, and instances of the
-- theorems.
use hoglet.Query.Formula.Printed.{parse_tokens-print}
use hoglet.Query.Formula.Tokens.{unknown_series, nested_too_deeply, unbalanced_parentheses}
use hoglet.Query.Formula.Accepted.{IsWithin, parse-ends, parse-IsWithin}
use hoglet.Query.Outcome.{done, failed, out_of_fuel}
use hoglet.Query.Formula.Parser.{
  Node, number, series, binary, parse, is_sign, is_factor, parse_tokens,
}
use hoglet.Query.Formula.Evaluate.{Float, evaluate, evaluate-append}
use hoglet.Query.Formula.Printer.{sum, nesting, print}
use hoglet.Prelude.{
  ℕ, ◌+◌, ◌-◌, ◌*◌, ◌/◌, ◌≡◌, refl, ◌≢◌, true, Option, none, some, List, [], ◌∷◌, ◌++◌, arith, ◌==◌,
  nat_eq, string_eq, codes, list_eq,
}

-- Digits only, of up to two places.
abbrev parse_small : List ℕ → Option ℕ
parse_small (c ∷ []) = some (c - b'0')
parse_small (c ∷ d ∷ []) = some (10 * (c - b'0') + (d - b'0'))
parse_small cs = none

abbrev whole_numbers : Float ℕ
whole_numbers = record {
  positive_zero = 0;
  neg = λ n. 0;
  add = λ a b. a + b;
  sub = λ a b. a - b;
  mul = λ a b. a * b;
  div = λ a b. a / b;
  is_zero = λ n. n == 0;
  is_finite = λ n. true;
}

abbrev sum_of_product : Node ℕ
sum_of_product = binary (series 0) b'+' (binary (series 1) b'*' (series 2))

precedence : parse parse_small (codes "A + B * C") 3 ≡ done sum_of_product
unfolding parse
precedence = refl

precedence_value : evaluate whole_numbers sum_of_product (10 ∷ 4 ∷ 2 ∷ []) ≡ 18
unfolding evaluate
precedence_value = refl

division_by_zero : evaluate whole_numbers (binary (series 0) b'/' (series 1)) (7 ∷ 0 ∷ []) ≡ 0
unfolding evaluate
division_by_zero = refl

association :
    parse parse_small (codes "a-b-12") 2
    ≡ done (binary (binary (series 0) b'-' (series 1)) b'-' (number 12))
unfolding parse
association = refl

no_series : parse parse_small (codes "D") 3 ≡ failed (unknown_series b'D' 3)
unfolding parse
no_series = refl

left_open : parse parse_small (codes "(A") 3 ≡ failed unbalanced_parentheses
unfolding parse
left_open = refl

too_deep : parse parse_small (codes "((((((((((((A))))))))))))") 3 ≡ failed nested_too_deeply
unfolding parse
too_deep = refl

parse-ends_example : parse parse_small (codes "A * (") 1 ≢ out_of_fuel
parse-ends_example = parse-ends 1 parse_small (codes "A * (")

parse-IsWithin_example : IsWithin 3 sum_of_product
parse-IsWithin_example = parse-IsWithin 3 parse_small (codes "A + B * C") sum_of_product precedence

evaluate-append_example :
    evaluate whole_numbers sum_of_product ((10 ∷ 4 ∷ 2 ∷ []) ++ (99 ∷ []))
    ≡ evaluate whole_numbers sum_of_product (10 ∷ 4 ∷ 2 ∷ [])
evaluate-append_example =
    evaluate-append whole_numbers parse_small (codes "A + B * C") 3 sum_of_product (10 ∷ 4 ∷ 2 ∷ [])
      (99 ∷ []) precedence (omega arith)

parse_tokens-print_example : parse_tokens (print sum sum_of_product []) ≡ done sum_of_product
unfolding nesting is_sign is_factor
parse_tokens-print_example =
    parse_tokens-print sum_of_product (tt, refl, (tt, refl, tt)) (omega arith)
