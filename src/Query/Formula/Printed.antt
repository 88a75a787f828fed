-- ===== src/Query/Formula/Printed.antt =====
-- src/query/formula.rs: what is written for a node parses to that node.
mod Rules
use hoglet.Query.Formula.Printed.Rules.{
  Reads, ReadsUnary, ReadsTerm, ReadsExpression, factor_not_sign, unary_of_expression, atom-Reads,
  expression_loop-Stops, unary-step, term_loop-Stops, expression_of_term, term_of_unary,
  sign_not_factor,
}
use hoglet.Query.Outcome.{Outcome, done, failed, out_of_fuel, ◌>>=◌}
use hoglet.Query.Formula.Tokens.{Token, letter, op, open_parenthesis, close_parenthesis}
use hoglet.Query.Formula.Parser.{
  Node, number, series, negate, binary, Parsed, is_factor, term_loop, expression_loop, term,
  expression, unary, is_sign, max_depth, close, primary, parse_tokens, finish,
}
use hoglet.Query.Formula.Printer.{Level, sum, product, atom, nesting, print, length-print, IsNode}
use hoglet.Prelude.{
  ℕ, zero, suc, ◌+◌, ◌*◌, ◌≤◌, ◌<◌, max, ◌≡◌, refl, ap, ◌∙◌, inl, inr, true, List, [], ◌∷◌, arith,
  Bool-cases, length,
}

module _ {N : Type 0} where
  number-ReadsUnary : (n : N) → ReadsUnary (number n)
  unfolding primary print nesting
  number-ReadsUnary n d rest zero h l = absurd (omega arith)
  number-ReadsUnary n d rest (suc fuel) h l =
      unary-step fuel d (Token.number n ∷ rest) (omega arith) ∙ refl

  series-ReadsUnary : (i : ℕ) → ReadsUnary {N = N} (series i)
  unfolding primary print nesting
  series-ReadsUnary i d rest zero h l = absurd (omega arith)
  series-ReadsUnary i d rest (suc fuel) h l =
      unary-step fuel d (letter i ∷ rest) (omega arith) ∙ refl

  negate-ReadsUnary : (inner : Node N) → ReadsUnary inner → ReadsUnary (negate inner)
  unfolding unary print nesting
  negate-ReadsUnary inner reads d rest zero h l = absurd (omega arith)
  negate-ReadsUnary inner reads d rest (suc zero) h l = absurd (omega arith)
  negate-ReadsUnary inner reads d rest (suc (suc fuel)) h l =
      unary-step (suc fuel) d (op b'-' ∷ print atom inner rest) (omega arith)
      ∙ rw (primary, reads (d + 1) rest fuel (omega arith) (omega arith))

  module _ (left : Node N) (c : ℕ) (right : Node N) where
    product-ReadsTerm :
        is_factor c ≡ true → ReadsTerm left → ReadsUnary right → ReadsTerm (binary left c right)
    unfolding term_loop print nesting
    product-ReadsTerm e reads_left reads_right d rest result fuel h k l =
        let l' : 4 * length (print product left (op c ∷ print atom right rest)) + 3 ≤ fuel =
          rw (print, factor_not_sign c e) at l in
        rw (print, factor_not_sign c e)
          (reads_left d (op c ∷ print atom right rest) result fuel (omega (arith, deep)) loop l')
      where
        deep : d + (0 + max (nesting product left) (1 + nesting atom right)) ≤ max_depth
        deep = rw (nesting, factor_not_sign c e) at h

        loop :
            (f : ℕ)
            → 4 * suc (length (print atom right rest)) < f
            → term_loop f d left (op c ∷ print atom right rest) ≡ result
        loop zero m = absurd (omega arith)
        loop (suc f) m =
            rw (term_loop, e, reads_right (d + 1) rest f (omega (arith, deep)) (omega arith))
              (k f (omega (arith, length-print atom right rest)))

    sum-ReadsExpression :
        is_sign c ≡ true
        → ReadsExpression left
        → ReadsTerm right
        → ReadsExpression (binary left c right)
    unfolding expression_loop print nesting
    sum-ReadsExpression e reads_left reads_right d rest result fuel h s k l =
        let l' : 4 * length (print sum left (op c ∷ print product right rest)) + 4 ≤ fuel =
          rw (print, e) at l in
        rw (print, e)
          (reads_left d (op c ∷ print product right rest) result fuel (omega (arith, deep))
            (sign_not_factor c e) loop l')
      where
        deep : d + (0 + max (nesting sum left) (1 + nesting product right)) ≤ max_depth
        deep = rw (nesting, e) at h

        ends : (f : ℕ) → 4 * length rest < f → term_loop f (d + 1) right rest ≡ done (right, rest)
        ends zero m = absurd (omega arith)
        ends (suc f) m = term_loop-Stops f (d + 1) right rest s

        loop :
            (f : ℕ)
            → 4 * suc (length (print product right rest)) < f
            → expression_loop f d left (op c ∷ print product right rest) ≡ result
        loop zero m = absurd (omega arith)
        loop (suc f) m =
            rw
              (
                expression_loop,
                e,
                reads_right (d + 1) rest (done (right, rest)) f (omega (arith, deep)) ends
                    (omega arith),
              )
              (k f (omega (arith, length-print product right rest)))

    product-Reads : is_factor c ≡ true → Reads left → Reads right → Reads (binary left c right)
    unfolding print nesting
    product-Reads e l r =
        let as_term = product-ReadsTerm e l.1 r.0 in
        let plain = factor_not_sign c e in
        let as_expression =
          expression_of_term (binary left c right) (λ rest. rw (print, plain))
            (rw (nesting, plain) (omega arith)) as_term in
        (
          unary_of_expression (binary left c right) (λ rest. rw (print, plain))
              (rw (nesting, plain) (omega arith)) as_expression,
          as_term,
          as_expression,
        )

    sum-Reads : is_sign c ≡ true → Reads left → Reads right → Reads (binary left c right)
    unfolding print nesting
    sum-Reads e l r =
        let as_expression = sum-ReadsExpression e l.2 r.1 in
        let as_unary =
          unary_of_expression (binary left c right) (λ rest. rw (print, e))
            (rw (nesting, e) (omega arith)) as_expression in
        (
          as_unary,
          term_of_unary (binary left c right) (λ rest. rw (print, e))
              (rw (nesting, e) (omega arith)) as_unary,
          as_expression,
        )

  node-Reads : (node : Node N) → IsNode node → Reads node
  unfolding print nesting
  node-Reads (number n) h =
      atom-Reads (number n) (λ r. refl) (λ r. refl) refl refl (number-ReadsUnary n)
  node-Reads (series i) h =
      atom-Reads (series i) (λ r. refl) (λ r. refl) refl refl (series-ReadsUnary i)
  node-Reads (negate inner) h =
      atom-Reads (negate inner) (λ r. refl) (λ r. refl) (omega arith) (omega arith)
        (negate-ReadsUnary inner (node-Reads inner h).0)
  node-Reads (binary left c right) h = elim (Bool-cases (is_sign c)) [
    | inl e ↦ sum-Reads left c right e (node-Reads left h.0) (node-Reads right h.2)
    | inr e ↦
        product-Reads left c right (ground (arith, h.1)) (node-Reads left h.0)
          (node-Reads right h.2)
  ]

  -- A node of the four operations, nested at most as deep as the parser goes, is read back from the
  -- tokens that it is written by, without parentheses where precedence and association to the left
  -- make them superfluous.
  pub parse_tokens-print :
      (node : Node N)
      → IsNode node
      → nesting sum node ≤ max_depth
      → parse_tokens (print sum node []) ≡ done node
  unfolding parse_tokens finish
  parse_tokens-print node h deep = whole (print sum node []) refl
    where
      ends : (f : ℕ) → 0 < f → expression_loop f 0 node [] ≡ done (node, [])
      ends zero m = absurd (omega arith)
      ends (suc f) m = expression_loop-Stops f 0 node [] tt

      whole : (ts : List (Token N)) → print sum node [] ≡ ts → parse_tokens ts ≡ done node
      whole [] e = absurd (omega (arith, length-print sum node [], ap length e))
      whole (t ∷ ts) e =
          let read : expression (4 * length (t ∷ ts) + 4) 0 (t ∷ ts) ≡ done (node, []) = rw (← e) (
            (node-Reads node h).2 0 [] (done (node, [])) _ (omega arith) tt ends
              (omega (arith, ap length e))) in
          rw read
