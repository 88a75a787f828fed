-- ===== src/Query/Formula/Accepted.antt =====
-- src/query/formula.rs: the parser ends, and what it returns refers to the query's series only.
use hoglet.Query.Outcome.{
  done, out_of_fuel, Ensures, Ensures-bind, Ensures-test, Ensures-ends, Ensures-done, Ensures-mono,
}
use hoglet.Query.Formula.Tokens.{
  Token, letter, op, open_parenthesis, close_parenthesis, is_operator, next_number, next_token,
  tokenize_loop, length-drop_literal, max_tokens, take_literal, is_blank_char, drop_literal,
}
use hoglet.Query.Formula.Parser.{
  Node, number, series, negate, binary, is_sign, close, expression, is_factor, max_depth, term,
  expression_loop, finish, parse_tokens, parse, unary, term_loop, primary,
}
use hoglet.Prelude.{
  ℕ, zero, suc, ◌+◌, ◌-◌, ◌*◌, ◌≤◌, ◌<◌, ◌≡◌, ◌≢◌, inl, inr, true, ◌||◌, Option, List, [], ◌∷◌,
  arith, ltb, Bool-cases, Option-cases, ◌==◌, nat_eq, string_eq, length, All, list_eq,
}

module _ {N : Type 0} (count : ℕ) where
  -- Each series is one of `count`, and each operation is one of the four.
  abbrev pub IsWithin : Node N → Type 0
  IsWithin (number n) = Unit
  IsWithin (series i) = i < count
  IsWithin (negate inner) = IsWithin inner
  IsWithin (binary left c right) =
      IsWithin left × (is_sign c || is_factor c ≡ true) × IsWithin right

  abbrev pub IsToken : Token N → Type 0
  IsToken (Token.number n) = Unit
  IsToken (letter i) = i < count
  IsToken (op c) = is_operator c ≡ true
  IsToken open_parenthesis = Unit
  IsToken close_parenthesis = Unit

  -- A node was read, and `size` bounds the tokens that are left.
  abbrev Leaves : ℕ → Node N × List (Token N) → Type 0
  Leaves size (node, rest) = IsWithin node × All IsToken rest × (length rest < size)

  Leaves-mono : {m n : ℕ} (r : Node N × List (Token N)) → m ≤ n → Leaves m r → Leaves n r
  Leaves-mono (node, rest) h (a, b, c) = (a, b, omega arith)

  close-Leaves :
      (node : Node N) (ts : List (Token N)) (n : ℕ)
      → IsWithin node
      → All IsToken ts
      → length ts < n
      → Ensures (Leaves n) (close node ts)
  unfolding close
  close-Leaves node [] n a b c = tt
  close-Leaves node (close_parenthesis ∷ ts) n a b c = (a, b.1, omega arith)
  close-Leaves node (Token.number x ∷ ts) n a b c = tt
  close-Leaves node (letter x ∷ ts) n a b c = tt
  close-Leaves node (op x ∷ ts) n a b c = tt
  close-Leaves node (open_parenthesis ∷ ts) n a b c = tt

  mutual
    unfolding expression

    expression-Leaves :
        (fuel depth n : ℕ) (ts : List (Token N))
        → All IsToken ts
        → length ts < n
        → 4 * n ≤ fuel
        → Ensures (Leaves n) (expression fuel depth ts)
    expression-Leaves zero depth n ts a b c = absurd (omega arith)
    expression-Leaves (suc fuel) depth n ts a b c =
        Ensures-test (Leaves n) (ltb max_depth depth) _ _ (λ _. tt)
          (λ _.
            Ensures-bind (Leaves n) (Leaves n) (term fuel (depth + 1) ts) _
              (term-Leaves fuel (depth + 1) n ts a b (omega arith))
              (λ (left, rest) (p, q, r).
                expression_loop-Leaves fuel depth n n left rest (omega arith) p q r (omega arith)))

    expression_loop-Leaves :
        (fuel depth n m : ℕ) (left : Node N) (ts : List (Token N))
        → m ≤ n
        → IsWithin left
        → All IsToken ts
        → length ts < m
        → 4 * m ≤ fuel + 3
        → Ensures (Leaves n) (expression_loop fuel depth left ts)
    expression_loop-Leaves zero depth n m left ts l p a b c = absurd (omega arith)
    expression_loop-Leaves (suc fuel) depth n m left (op x ∷ ts) l p a b c =
        Ensures-test (Leaves n) (is_sign x) _ _
          (λ e.
            Ensures-bind (Leaves n) (Leaves (m - 1)) (term fuel (depth + 1) ts) _
              (term-Leaves fuel (depth + 1) (m - 1) ts a.1 (omega arith) (omega arith))
              (λ (right, rest) (q, r, s).
                expression_loop-Leaves fuel depth n (m - 1) (binary left x right) rest (omega arith)
                  (p, ground arith, q) r s (omega arith)))
          (λ _. (p, a, omega arith))
    expression_loop-Leaves (suc fuel) depth n m left [] l p a b c = (p, a, omega arith)
    expression_loop-Leaves (suc fuel) depth n m left (Token.number x ∷ ts) l p a b c =
        (p, a, omega arith)
    expression_loop-Leaves (suc fuel) depth n m left (letter x ∷ ts) l p a b c = (p, a, omega arith)
    expression_loop-Leaves (suc fuel) depth n m left (open_parenthesis ∷ ts) l p a b c =
        (p, a, omega arith)
    expression_loop-Leaves (suc fuel) depth n m left (close_parenthesis ∷ ts) l p a b c =
        (p, a, omega arith)

    term-Leaves :
        (fuel depth n : ℕ) (ts : List (Token N))
        → All IsToken ts
        → length ts < n
        → 4 * n ≤ fuel + 1
        → Ensures (Leaves n) (term fuel depth ts)
    term-Leaves zero depth n ts a b c = absurd (omega arith)
    term-Leaves (suc fuel) depth n ts a b c =
        Ensures-bind (Leaves n) (Leaves n) (unary fuel (depth + 1) ts) _
          (unary-Leaves fuel (depth + 1) n ts a b (omega arith))
          (λ (left, rest) (p, q, r).
            term_loop-Leaves fuel depth n n left rest (omega arith) p q r (omega arith))

    term_loop-Leaves :
        (fuel depth n m : ℕ) (left : Node N) (ts : List (Token N))
        → m ≤ n
        → IsWithin left
        → All IsToken ts
        → length ts < m
        → 4 * m ≤ fuel + 3
        → Ensures (Leaves n) (term_loop fuel depth left ts)
    term_loop-Leaves zero depth n m left ts l p a b c = absurd (omega arith)
    term_loop-Leaves (suc fuel) depth n m left (op x ∷ ts) l p a b c =
        Ensures-test (Leaves n) (is_factor x) _ _
          (λ e.
            Ensures-bind (Leaves n) (Leaves (m - 1)) (unary fuel (depth + 1) ts) _
              (unary-Leaves fuel (depth + 1) (m - 1) ts a.1 (omega arith) (omega arith))
              (λ (right, rest) (q, r, s).
                term_loop-Leaves fuel depth n (m - 1) (binary left x right) rest (omega arith)
                  (p, ground arith, q) r s (omega arith)))
          (λ _. (p, a, omega arith))
    term_loop-Leaves (suc fuel) depth n m left [] l p a b c = (p, a, omega arith)
    term_loop-Leaves (suc fuel) depth n m left (Token.number x ∷ ts) l p a b c = (p, a, omega arith)
    term_loop-Leaves (suc fuel) depth n m left (letter x ∷ ts) l p a b c = (p, a, omega arith)
    term_loop-Leaves (suc fuel) depth n m left (open_parenthesis ∷ ts) l p a b c =
        (p, a, omega arith)
    term_loop-Leaves (suc fuel) depth n m left (close_parenthesis ∷ ts) l p a b c =
        (p, a, omega arith)

    unary-Leaves :
        (fuel depth n : ℕ) (ts : List (Token N))
        → All IsToken ts
        → length ts < n
        → 4 * n ≤ fuel + 2
        → Ensures (Leaves n) (unary fuel depth ts)
    unary-Leaves zero depth n ts a b c = absurd (omega arith)
    unary-Leaves (suc fuel) depth n ts a b c =
        Ensures-test (Leaves n) (ltb max_depth depth) _ _ (λ _. tt)
          (λ _. primary-Leaves fuel depth n ts a b (omega arith))

    primary-Leaves :
        (fuel depth n : ℕ) (ts : List (Token N))
        → All IsToken ts
        → length ts < n
        → 4 * n ≤ fuel + 3
        → Ensures (Leaves n) (primary fuel depth ts)
    primary-Leaves fuel depth n [] a b c = tt
    primary-Leaves fuel depth n (Token.number x ∷ ts) a b c = (tt, a.1, omega arith)
    primary-Leaves fuel depth n (letter x ∷ ts) a b c = (a.0, a.1, omega arith)
    primary-Leaves zero depth n (op x ∷ ts) a b c = absurd (omega arith)
    primary-Leaves zero depth n (open_parenthesis ∷ ts) a b c = absurd (omega arith)
    primary-Leaves zero depth n (close_parenthesis ∷ ts) a b c = absurd (omega arith)
    primary-Leaves (suc fuel) depth n (close_parenthesis ∷ ts) a b c = tt
    primary-Leaves (suc fuel) depth n (open_parenthesis ∷ ts) a b c =
        Ensures-bind (Leaves n) (Leaves (n - 1)) (expression fuel (depth + 1) ts) _
          (expression-Leaves fuel (depth + 1) (n - 1) ts a.1 (omega arith) (omega arith))
          (λ (inner, rest) (p, q, r). close-Leaves inner rest n p q (omega arith))
    primary-Leaves (suc fuel) depth n (op x ∷ ts) a b c =
        let inner = unary-Leaves fuel (depth + 1) (n - 1) ts a.1 (omega arith) (omega arith) in
        Ensures-test (Leaves n) (x == b'-') _ _
          (λ _.
            Ensures-bind (Leaves n) (Leaves (n - 1)) (unary fuel (depth + 1) ts) _ inner
              (λ (node, rest) (p, q, r). (p, q, omega arith)))
          (λ _.
            Ensures-test (Leaves n) (x == b'+') _ _
              (λ _.
                Ensures-mono (Leaves (n - 1)) (Leaves n) (unary fuel (depth + 1) ts)
                  (λ (node, rest) (p, q, r). (p, q, omega arith)) inner)
              (λ _. tt))

  finish-IsWithin :
      (root : Node N) (rest : List (Token N)) → IsWithin root → Ensures IsWithin (finish root rest)
  unfolding finish
  finish-IsWithin root [] h = h
  finish-IsWithin root (t ∷ ts) h = tt

  parse_tokens-IsWithin :
      (ts : List (Token N)) → All IsToken ts → Ensures IsWithin (parse_tokens ts)
  unfolding parse_tokens
  parse_tokens-IsWithin [] h = tt
  parse_tokens-IsWithin (t ∷ ts) h =
      Ensures-bind IsWithin (Leaves (length (t ∷ ts) + 1)) _ _
        (expression-Leaves (4 * length (t ∷ ts) + 4) 0 (length (t ∷ ts) + 1) (t ∷ ts) h
          (omega arith) (omega arith))
        (λ (root, rest) (p, q, r). finish-IsWithin root rest p)

  module _ (parse_f64 : List ℕ → Option N) where
    abbrev TokenLeft : ℕ → Token N × List ℕ → Type 0
    TokenLeft n (t, rest) = IsToken t × (length rest ≤ n)

    next_number-TokenLeft :
        (literal rest : List ℕ) (n : ℕ)
        → length rest ≤ n
        → Ensures (TokenLeft n) (next_number parse_f64 count literal rest)
    unfolding next_number
    next_number-TokenLeft literal rest n h = elim (Option-cases (parse_f64 literal)) [
      | inl e ↦ rw (e, Ensures) tt
      | inr (v, e) ↦ rw (e, Ensures) (tt, h)
    ]

    next_token-TokenLeft :
        (c : ℕ) (cs : List ℕ) → Ensures (TokenLeft (length cs)) (next_token parse_f64 count c cs)
    unfolding next_token
    next_token-TokenLeft c cs = ground (
      arith,
      length-drop_literal cs,
      next_number-TokenLeft (c ∷ take_literal cs) (drop_literal cs) (length cs),
    )

    tokenize_loop-All :
        (fuel i : ℕ) (chars : List ℕ)
        → length chars ≤ fuel
        → Ensures (All IsToken) (tokenize_loop parse_f64 count fuel i chars)
    unfolding tokenize_loop
    tokenize_loop-All fuel i [] h = tt
    tokenize_loop-All zero i (c ∷ cs) h = absurd (omega arith)
    tokenize_loop-All (suc fuel) i (c ∷ cs) h = elim (Bool-cases (ltb max_tokens i)) [
      | inl e ↦ rw e tt
      | inr e ↦ rw e (
          Ensures-test (All IsToken) (is_blank_char c) _ _
            (λ _. tokenize_loop-All fuel i cs (omega arith))
            (λ _.
              Ensures-bind (All IsToken) (TokenLeft (length cs)) (next_token parse_f64 count c cs) _
                (next_token-TokenLeft c cs)
                (λ (t, rest) (p, q).
                  Ensures-bind (All IsToken) (All IsToken)
                    (tokenize_loop parse_f64 count fuel (i + 1) rest) _
                    (tokenize_loop-All fuel (i + 1) rest (omega arith))
                    (λ ts all_tokens. (p, all_tokens)))))
    ]

    parse-Ensures : (text : List ℕ) → Ensures IsWithin (parse parse_f64 text count)
    unfolding parse
    parse-Ensures text =
        Ensures-bind IsWithin (All IsToken) _ _
          (tokenize_loop-All (length text) 0 text (omega arith)) parse_tokens-IsWithin

    -- The parser returns on every text, whatever the numbers: the fuel, four for each token and four
    -- more, is never spent.
    pub parse-ends : (text : List ℕ) → parse parse_f64 text count ≢ out_of_fuel
    parse-ends text = Ensures-ends IsWithin _ (parse-Ensures text)

    -- A formula that is accepted refers only to series that the query has, and each of its binary
    -- operations is one of the four.
    pub parse-IsWithin :
        (text : List ℕ) (root : Node N) → parse parse_f64 text count ≡ done root → IsWithin root
    parse-IsWithin text root h = Ensures-done IsWithin _ root (parse-Ensures text) h
