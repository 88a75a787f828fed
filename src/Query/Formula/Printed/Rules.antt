-- ===== src/Query/Formula/Printed/Rules.antt =====
-- src/query/formula.rs: what each routine of the parser does with a written node, and how the reading
-- by one rule gives that by the next.
use hoglet.Query.Outcome.{done}
use hoglet.Query.Formula.Tokens.{Token, letter, op, open_parenthesis, close_parenthesis}
use hoglet.Query.Formula.Parser.{
  Node, Parsed, is_factor, term_loop, expression_loop, term, expression, unary, is_sign, max_depth,
  close, primary,
}
use hoglet.Query.Formula.Printer.{sum, product, atom, nesting, print, length-print}
use hoglet.Prelude.{
  ℕ, zero, suc, ◌+◌, ◌*◌, ◌≤◌, ◌<◌, ◌≡◌, refl, ◌∙◌, Bool, true, false, List, [], ◌∷◌, arith, ltb,
  length,
}

pub factor_not_sign : (c : ℕ) → is_factor c ≡ true → is_sign c ≡ false
unfolding is_factor is_sign
factor_not_sign c h = ground arith

pub sign_not_factor : (c : ℕ) → is_sign c ≡ true → is_factor c ≡ false
unfolding is_factor is_sign
sign_not_factor c h = ground arith

module _ {N : Type 0} where
  abbrev pub Stops : (ℕ → Bool) → List (Token N) → Type 0
  Stops p (op c ∷ ts) = p c ≡ false
  Stops p ts = Unit

  pub term_loop-Stops :
      (fuel d : ℕ) (node : Node N) (ts : List (Token N))
      → Stops is_factor ts
      → term_loop (suc fuel) d node ts ≡ done (node, ts)
  unfolding term_loop
  term_loop-Stops fuel d node [] h = refl
  term_loop-Stops fuel d node (op c ∷ ts) h = rw (h, term_loop)
  term_loop-Stops fuel d node (Token.number x ∷ ts) h = refl
  term_loop-Stops fuel d node (letter x ∷ ts) h = refl
  term_loop-Stops fuel d node (open_parenthesis ∷ ts) h = refl
  term_loop-Stops fuel d node (close_parenthesis ∷ ts) h = refl

  pub expression_loop-Stops :
      (fuel d : ℕ) (node : Node N) (ts : List (Token N))
      → Stops is_sign ts
      → expression_loop (suc fuel) d node ts ≡ done (node, ts)
  unfolding expression_loop
  expression_loop-Stops fuel d node [] h = refl
  expression_loop-Stops fuel d node (op c ∷ ts) h = rw (h, expression_loop)
  expression_loop-Stops fuel d node (Token.number x ∷ ts) h = refl
  expression_loop-Stops fuel d node (letter x ∷ ts) h = refl
  expression_loop-Stops fuel d node (open_parenthesis ∷ ts) h = refl
  expression_loop-Stops fuel d node (close_parenthesis ∷ ts) h = refl

  pub expression-step :
      (fuel d : ℕ) (left : Node N) (ts rest : List (Token N))
      → d ≤ max_depth
      → term fuel (d + 1) ts ≡ done (left, rest)
      → expression (suc fuel) d ts ≡ expression_loop fuel d left rest
  unfolding expression
  expression-step fuel d left ts rest h e =
      let shallow : ltb max_depth d ≡ false = ground arith in rw (expression, shallow, e)

  pub unary-step :
      (fuel d : ℕ) (ts : List (Token N)) → d ≤ max_depth → unary (suc fuel) d ts ≡ primary fuel d ts
  unfolding unary
  unary-step fuel d ts h =
      let shallow : ltb max_depth d ≡ false = ground arith in rw (unary, shallow)

  -- `unary` reads the node off the front.
  abbrev pub ReadsUnary : Node N → Type 0
  ReadsUnary node =
      (d : ℕ) (rest : List (Token N)) (fuel : ℕ)
      → d + nesting atom node ≤ max_depth
      → 4 * length (print atom node rest) + 2 ≤ fuel
      → unary fuel d (print atom node rest) ≡ done (node, rest)

  -- `term` reads the node off the front, and its loop goes on behind it.
  abbrev pub ReadsTerm : Node N → Type 0
  ReadsTerm node =
      (d : ℕ) (rest : List (Token N)) (result : Parsed N) (fuel : ℕ)
      → d + nesting product node ≤ max_depth
      → ((f : ℕ) → 4 * length rest < f → term_loop f d node rest ≡ result)
      → 4 * length (print product node rest) + 3 ≤ fuel
      → term fuel d (print product node rest) ≡ result

  abbrev pub ReadsExpression : Node N → Type 0
  ReadsExpression node =
      (d : ℕ) (rest : List (Token N)) (result : Parsed N) (fuel : ℕ)
      → d + nesting sum node ≤ max_depth
      → Stops is_factor rest
      → ((f : ℕ) → 4 * length rest < f → expression_loop f d node rest ≡ result)
      → 4 * length (print sum node rest) + 4 ≤ fuel
      → expression fuel d (print sum node rest) ≡ result

  -- A node that is written alike by both rules.
  pub term_of_unary :
      (node : Node N)
      → ((rest : List (Token N)) → print product node rest ≡ print atom node rest)
      → nesting product node ≡ 1 + nesting atom node
      → ReadsUnary node
      → ReadsTerm node
  unfolding term
  term_of_unary node same deeper reads d rest result zero h k l = absurd (omega arith)
  term_of_unary node same deeper reads d rest result (suc fuel) h k l =
      let l' : 4 * length (print atom node rest) + 3 ≤ suc fuel = rw (same rest) at l in
      rw (same rest, reads (d + 1) rest fuel (omega arith) (omega arith))
        (k fuel (omega (arith, length-print atom node rest)))

  pub expression_of_term :
      (node : Node N)
      → ((rest : List (Token N)) → print sum node rest ≡ print product node rest)
      → nesting sum node ≡ 1 + nesting product node
      → ReadsTerm node
      → ReadsExpression node
  unfolding expression
  expression_of_term node same deeper reads d rest result zero h s k l = absurd (omega arith)
  expression_of_term node same deeper reads d rest result (suc fuel) h s k l =
      let l' : 4 * length (print product node rest) + 4 ≤ suc fuel = rw (same rest) at l in
      let whole : term fuel (d + 1) (print product node rest) ≡ done (node, rest) =
        reads (d + 1) rest (done (node, rest)) fuel (omega arith) (loop_ends) (omega arith) in
      rw (same rest) (
        expression-step fuel d node (print product node rest) rest (omega arith) whole
        ∙ k fuel (omega (arith, length-print product node rest)))
    where
      loop_ends : (f : ℕ) → 4 * length rest < f → term_loop f (d + 1) node rest ≡ done (node, rest)
      loop_ends zero h = absurd (omega arith)
      loop_ends (suc f) h = term_loop-Stops f (d + 1) node rest s

  pub unary_of_expression :
      (node : Node N)
      → ((rest : List (Token N))
          → print atom node rest ≡ open_parenthesis ∷ print sum node (close_parenthesis ∷ rest))
      → nesting atom node ≡ 1 + nesting sum node
      → ReadsExpression node
      → ReadsUnary node
  unfolding unary close
  unary_of_expression node same deeper reads d rest zero h l = absurd (omega arith)
  unary_of_expression node same deeper reads d rest (suc zero) h l = absurd (omega arith)
  unary_of_expression node same deeper reads d rest (suc (suc fuel)) h l =
      let l' : 4 * suc (length (print sum node (close_parenthesis ∷ rest))) + 2 ≤ suc (suc fuel) =
        rw (same rest) at l in
      let whole : expression fuel (d + 1) (print sum node (close_parenthesis ∷ rest))
          ≡ done (node, close_parenthesis ∷ rest) =
        reads (d + 1) (close_parenthesis ∷ rest) (done (node, close_parenthesis ∷ rest)) fuel
          (omega arith) tt loop_ends (omega arith) in
      rw (same rest) (
        unary-step (suc fuel) d (open_parenthesis ∷ print sum node (close_parenthesis ∷ rest))
          (omega arith)
        ∙ rw (primary, whole))
    where
      loop_ends :
          (f : ℕ)
          → 4 * suc (length rest) < f
          → expression_loop f (d + 1) node (close_parenthesis ∷ rest)
            ≡ done (node, close_parenthesis ∷ rest)
      loop_ends zero h = absurd (omega arith)
      loop_ends (suc f) h = expression_loop-Stops f (d + 1) node (close_parenthesis ∷ rest) tt

  abbrev pub Reads : Node N → Type 0
  Reads node = ReadsUnary node × ReadsTerm node × ReadsExpression node

  -- The rest of the cases, from the first rule that writes a node.
  pub atom-Reads :
      (node : Node N)
      → ((rest : List (Token N)) → print product node rest ≡ print atom node rest)
      → ((rest : List (Token N)) → print sum node rest ≡ print product node rest)
      → nesting product node ≡ 1 + nesting atom node
      → nesting sum node ≡ 1 + nesting product node
      → ReadsUnary node
      → Reads node
  atom-Reads node p q m n reads =
      let as_term = term_of_unary node p m reads in
      (reads, as_term, expression_of_term node q n as_term)
