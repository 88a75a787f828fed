-- ===== src/Query/Formula/Printer.antt =====
-- src/query/formula.rs: the tokens that are written for a node, with parentheses only where the
-- precedence of the operations wants them.
use hoglet.Query.Formula.Tokens.{Token, letter, op, open_parenthesis, close_parenthesis}
use hoglet.Query.Formula.Parser.{Node, number, series, negate, binary, is_sign, is_factor}
use hoglet.Prelude.{
  ℕ, suc, ◌+◌, ◌<◌, max, ◌≡◌, inl, inr, true, false, ◌||◌, List, ◌∷◌, arith, Bool-cases, length,
}

-- Which rule of the grammar writes a node.
pub data Level : Type 0 where
  sum product atom : Level

abbrev pub offset : Level → ℕ
offset atom = 0
offset product = 1
offset sum = 2

abbrev pub offset_sum : Level → ℕ
offset_sum sum = 0
offset_sum atom = 1
offset_sum product = 2

abbrev pub offset_product : Level → ℕ
offset_product product = 0
offset_product sum = 1
offset_product atom = 2

lt_trans_suc : {a b c : ℕ} → a < b → suc b < c → a < c
lt_trans_suc h k = omega arith

module _ {N : Type 0} where
  abbrev pub parenthesize : (List (Token N) → List (Token N)) → List (Token N) → List (Token N)
  parenthesize body rest = open_parenthesis ∷ body (close_parenthesis ∷ rest)

  abbrev pub wrap_sum : Level → (List (Token N) → List (Token N)) → List (Token N) → List (Token N)
  wrap_sum sum body = body
  wrap_sum product body = parenthesize body
  wrap_sum atom body = parenthesize body

  abbrev pub wrap_product :
      Level → (List (Token N) → List (Token N)) → List (Token N) → List (Token N)
  wrap_product sum body = body
  wrap_product product body = body
  wrap_product atom body = parenthesize body

  -- The tokens of a node, before those of `rest`.
  unfoldable pub print : Level → Node N → List (Token N) → List (Token N)
  print l (number n) rest = Token.number n ∷ rest
  print l (series i) rest = letter i ∷ rest
  print l (negate inner) rest = op b'-' ∷ print atom inner rest
  print l (binary left c right) rest = elim (is_sign c) [
    | true ↦ wrap_sum l (λ r. print sum left (op c ∷ print product right r)) rest
    | false ↦ wrap_product l (λ r. print product left (op c ∷ print atom right r)) rest
  ]

  -- How much deeper than at its start the parser goes for a node.
  unfoldable pub nesting : Level → Node N → ℕ
  nesting l (number n) = offset l
  nesting l (series i) = offset l
  nesting l (negate inner) = offset l + 1 + nesting atom inner
  nesting l (binary left c right) = elim (is_sign c) [
    | true ↦ offset_sum l + max (nesting sum left) (1 + nesting product right)
    | false ↦ offset_product l + max (nesting product left) (1 + nesting atom right)
  ]

  abbrev pub IsNode : Node N → Type 0
  IsNode (number n) = Unit
  IsNode (series i) = Unit
  IsNode (negate inner) = IsNode inner
  IsNode (binary left c right) = IsNode left × (is_sign c || is_factor c ≡ true) × IsNode right

  abbrev pub Lengthens : (List (Token N) → List (Token N)) → Type 0
  Lengthens body = (r : List (Token N)) → length r < length (body r)

  wrap_sum-Lengthens :
      (l : Level) (body : List (Token N) → List (Token N))
      → Lengthens body
      → Lengthens (wrap_sum l body)
  wrap_sum-Lengthens sum body h r = h r
  wrap_sum-Lengthens product body h r = omega (arith, h (close_parenthesis ∷ r))
  wrap_sum-Lengthens atom body h r = omega (arith, h (close_parenthesis ∷ r))

  wrap_product-Lengthens :
      (l : Level) (body : List (Token N) → List (Token N))
      → Lengthens body
      → Lengthens (wrap_product l body)
  wrap_product-Lengthens sum body h r = h r
  wrap_product-Lengthens product body h r = h r
  wrap_product-Lengthens atom body h r = omega (arith, h (close_parenthesis ∷ r))

  pub length-print : (l : Level) (node : Node N) → Lengthens (print l node)
  unfolding print
  length-print l (number n) rest = omega arith
  length-print l (series n) rest = omega arith
  length-print l (negate inner) rest = omega (arith, length-print atom inner rest)
  length-print l (binary left c right) rest = elim (Bool-cases (is_sign c)) [
    | inl e ↦
        rw (print, e)
          (wrap_sum-Lengthens l _
            (λ r.
              lt_trans_suc (length-print product right r)
                (length-print sum left (op c ∷ print product right r)))
            rest)
    | inr e ↦
        rw (print, e)
          (wrap_product-Lengthens l _
            (λ r.
              lt_trans_suc (length-print atom right r)
                (length-print product left (op c ∷ print atom right r)))
            rest)
  ]
