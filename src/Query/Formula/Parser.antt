-- ===== src/Query/Formula/Parser.antt =====
-- src/query/formula.rs: the parser. It stands at the tokens that it has not read; fuel falls in every
-- call and in every round of a loop.
use hoglet.Query.Formula.Tokens.{
  Token, FormulaError, letter, op, open_parenthesis, close_parenthesis, tokenize,
  unbalanced_parentheses, nested_too_deeply, trailing_input, empty_formula, incomplete,
}
use hoglet.Query.Outcome.{Outcome, done, failed, out_of_fuel, ◌>>=◌}
use hoglet.Prelude.{
  ℕ, zero, suc, ◌+◌, ◌*◌, Bool, true, false, ◌||◌, Option, List, [], ◌∷◌, ltb, ◌==◌, nat_eq,
  string_eq, length, list_eq,
}

pub data Node {ℓ} (N : Type ℓ) : Type ℓ where
  number : N → Node N
  series : ℕ → Node N
  negate : Node N → Node N
  binary : Node N → ℕ → Node N → Node N

abbrev pub max_depth : ℕ
max_depth = 32

abbrev pub Parsed {ℓ} : Type ℓ → Type ℓ
Parsed N = Outcome (Node N × List (Token N)) FormulaError

-- `'+' | '-'` and `'*' | '/'`.
unfoldable pub is_sign : ℕ → Bool
is_sign c = (c == b'+') || (c == b'-')

unfoldable pub is_factor : ℕ → Bool
is_factor c = (c == b'*') || (c == b'/')

-- What stands behind a closing parenthesis.
unfoldable pub close {ℓ} : {N : Type ℓ} → Node N → List (Token N) → Parsed N
close inner (close_parenthesis ∷ rest) = done (inner, rest)
close inner _ = failed unbalanced_parentheses

unfoldable mutual
  pub expression {ℓ} : {N : Type ℓ} → ℕ → ℕ → List (Token N) → Parsed N
  expression zero depth ts = out_of_fuel
  expression (suc fuel) depth ts = elim (ltb max_depth depth) [
    | true ↦ failed nested_too_deeply
    | false ↦ term fuel (depth + 1) ts >>= λ (left, rest). expression_loop fuel depth left rest
  ]

  pub expression_loop {ℓ} : {N : Type ℓ} → ℕ → ℕ → Node N → List (Token N) → Parsed N
  expression_loop zero depth left ts = out_of_fuel
  expression_loop (suc fuel) depth left (op c ∷ ts) = elim (is_sign c) [
    | true ↦ term fuel (depth + 1) ts >>= λ (right, rest).
        expression_loop fuel depth (binary left c right) rest
    | false ↦ done (left, op c ∷ ts)
  ]
  expression_loop (suc fuel) depth left ts = done (left, ts)

  pub term {ℓ} : {N : Type ℓ} → ℕ → ℕ → List (Token N) → Parsed N
  term zero depth ts = out_of_fuel
  term (suc fuel) depth ts =
      unary fuel (depth + 1) ts >>= λ (left, rest). term_loop fuel depth left rest

  pub term_loop {ℓ} : {N : Type ℓ} → ℕ → ℕ → Node N → List (Token N) → Parsed N
  term_loop zero depth left ts = out_of_fuel
  term_loop (suc fuel) depth left (op c ∷ ts) = elim (is_factor c) [
    | true ↦ unary fuel (depth + 1) ts >>= λ (right, rest).
        term_loop fuel depth (binary left c right) rest
    | false ↦ done (left, op c ∷ ts)
  ]
  term_loop (suc fuel) depth left ts = done (left, ts)

  pub unary {ℓ} : {N : Type ℓ} → ℕ → ℕ → List (Token N) → Parsed N
  unary zero depth ts = out_of_fuel
  unary (suc fuel) depth ts = elim (ltb max_depth depth) [
    | true ↦ failed nested_too_deeply
    | false ↦ primary fuel depth ts
  ]

  -- The `match` of `unary`.
  pub primary {ℓ} : {N : Type ℓ} → ℕ → ℕ → List (Token N) → Parsed N
  primary fuel depth [] = failed incomplete
  primary fuel depth (Token.number n ∷ ts) = done (number n, ts)
  primary fuel depth (letter i ∷ ts) = done (series i, ts)
  primary zero depth (t ∷ ts) = out_of_fuel
  primary (suc fuel) depth (open_parenthesis ∷ ts) =
      expression fuel (depth + 1) ts >>= λ (inner, rest). close inner rest
  primary (suc fuel) depth (close_parenthesis ∷ ts) = failed incomplete
  primary (suc fuel) depth (op c ∷ ts) = elim (c == b'-') [
    | true ↦ unary fuel (depth + 1) ts >>= λ (inner, rest). done (negate inner, rest)
    | false ↦ elim (c == b'+') [ true ↦ unary fuel (depth + 1) ts | false ↦ failed incomplete ]
  ]

-- All of the tokens are read.
unfoldable pub finish {ℓ} : {N : Type ℓ} → Node N → List (Token N) → Outcome (Node N) FormulaError
finish root [] = done root
finish root (t ∷ ts) = failed trailing_input

-- `Formula::parse`, of the tokens.
unfoldable pub parse_tokens {ℓ} : {N : Type ℓ} → List (Token N) → Outcome (Node N) FormulaError
unfolding expression finish
parse_tokens [] = failed empty_formula
parse_tokens (t ∷ ts) =
    expression (4 * length (t ∷ ts) + 4) 0 (t ∷ ts) >>= λ (root, rest). finish root rest

unfoldable pub parse {ℓ} :
    {N : Type ℓ} → (List ℕ → Option N) → List ℕ → ℕ → Outcome (Node N) FormulaError
unfolding tokenize parse_tokens is_sign is_factor close
parse parse_f64 text count = tokenize parse_f64 count text >>= parse_tokens
