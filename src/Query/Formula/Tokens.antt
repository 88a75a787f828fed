-- ===== src/Query/Formula/Tokens.antt =====
-- src/query/formula.rs: the tokens of a formula. Its text is a list of code points. The numbers are
-- a type `N`; what `str::parse` makes of a literal is an argument.
use hoglet.Query.Outcome.{Outcome, done, failed, out_of_fuel, ◌>>=◌}
use hoglet.Prelude.{
  ℕ, zero, suc, ◌+◌, ◌-◌, ◌≤◌, Bool, true, false, not, ◌&&◌, ◌||◌, Option, none, some, List, [],
  ◌∷◌, arith, ltb, leb, if◌then◌else◌, ◌==◌, nat_eq, string_eq, length, list_eq,
}

-- What `QueryError::invalid` is given, with the values that the message shows.
pub data FormulaError : Type 0 where
  too_long : FormulaError
  invalid_number : List ℕ → FormulaError
  unknown_series : ℕ → ℕ → FormulaError
  unexpected : ℕ → FormulaError
  nested_too_deeply : FormulaError
  unbalanced_parentheses : FormulaError
  incomplete : FormulaError
  empty_formula : FormulaError
  trailing_input : FormulaError

pub data Token {ℓ} (N : Type ℓ) : Type ℓ where
  number : N → Token N
  letter : ℕ → Token N
  op : ℕ → Token N
  open_parenthesis : Token N
  close_parenthesis : Token N

abbrev pub max_tokens : ℕ
max_tokens = 500

unfoldable pub is_blank_char : ℕ → Bool
is_blank_char c = (c == b' ') || (c == 0x09) || (c == 0x0a) || (c == 0x0d)

unfoldable pub is_operator : ℕ → Bool
is_operator c = (c == b'+') || (c == b'-') || (c == b'*') || (c == b'/')

unfoldable pub is_literal_char : ℕ → Bool
is_literal_char c = (leb b'0' c && leb c b'9') || (c == b'.')

unfoldable pub is_letter : ℕ → Bool
is_letter c = (leb b'A' c && leb c b'Z') || (leb b'a' c && leb c b'z')

-- `c.to_ascii_uppercase() as usize - 'A' as usize`, of a letter.
unfoldable pub letter_index : ℕ → ℕ
letter_index c = if leb b'a' c then c - 32 - b'A' else c - b'A'

-- The literal at the front, and what is left behind it.
abbrev pub take_literal : List ℕ → List ℕ
take_literal [] = []
take_literal (c ∷ cs) = let more = take_literal cs in if is_literal_char c then c ∷ more else []

abbrev pub drop_literal : List ℕ → List ℕ
drop_literal [] = []
drop_literal (c ∷ cs) = let more = drop_literal cs in if is_literal_char c then more else c ∷ cs

pub length-drop_literal : (cs : List ℕ) → length (drop_literal cs) ≤ length cs
length-drop_literal [] = omega arith
length-drop_literal (c ∷ cs) = ground (arith, length-drop_literal cs)

module _ {ℓ} {N : Type ℓ} (parse_f64 : List ℕ → Option N) (series : ℕ) where
  -- The number at the front, with the text behind it.
  unfoldable pub next_number : List ℕ → List ℕ → Outcome (Token N × List ℕ) FormulaError
  next_number literal rest = elim (parse_f64 literal) [
    | none ↦ failed (invalid_number literal)
    | some n ↦ done (number n, rest)
  ]

  -- The token at the front of a text that is not blank there, with the text behind it.
  unfoldable pub next_token : ℕ → List ℕ → Outcome (Token N × List ℕ) FormulaError
  unfolding is_operator is_literal_char is_letter letter_index next_number
  next_token c cs =
      if is_operator c
      then done (op c, cs)
      else if c == b'('
      then done (open_parenthesis, cs)
      else if c == b')'
      then done (close_parenthesis, cs)
      else if is_literal_char c
      then next_number (c ∷ take_literal cs) (drop_literal cs)
      else if not (is_letter c)
      then failed (unexpected c)
      else if leb series (letter_index c)
      then failed (unknown_series c series)
      else done (letter (letter_index c), cs)

  -- `while index < chars.len()`, with `count` tokens behind it.
  unfoldable pub tokenize_loop : ℕ → ℕ → List ℕ → Outcome (List (Token N)) FormulaError
  unfolding is_blank_char next_token
  tokenize_loop fuel count [] = done []
  tokenize_loop zero count (c ∷ cs) = out_of_fuel
  tokenize_loop (suc fuel) count (c ∷ cs) =
      if ltb max_tokens count then failed too_long else elim (is_blank_char c) [
        | true ↦ tokenize_loop fuel count cs
        | false ↦ next_token c cs >>= λ (t, rest).
            tokenize_loop fuel (count + 1) rest >>= λ ts. done (t ∷ ts)
      ]

  unfoldable pub tokenize : List ℕ → Outcome (List (Token N)) FormulaError
  unfolding tokenize_loop
  tokenize chars = tokenize_loop (length chars) 0 chars
