-- ===== src/Query/Formula/Evaluate.antt =====
-- src/query/formula.rs: the value of a formula. The arithmetic of `f64` is a parameter.
use hoglet.Query.Formula.Accepted.{IsWithin, parse-IsWithin}
use hoglet.Query.Outcome.{done}
use hoglet.Query.Formula.Parser.{Node, number, series, negate, binary, parse}
use hoglet.Prelude.{
  ℕ, zero, suc, ◌≤◌, ◌<◌, ◌≡◌, refl, ap, Bool, Option, none, some, List, [], ◌∷◌, ◌++◌, arith,
  if◌then◌else◌, ◌==◌, nat_eq, string_eq, length, get_elem?, list_eq,
}

-- What the source uses of `f64`. A number tests equal to zero for both of its signs.
pub record Float (N : Type 0) : Type 0 where
  pub positive_zero : N
  pub neg : N → N
  pub add : N → N → N
  pub sub : N → N → N
  pub mul : N → N → N
  pub div : N → N → N
  pub is_zero : N → Bool
  pub is_finite : N → Bool

get_elem?-append_left {ℓ} :
    {A : Type ℓ} (i : ℕ) (xs ys : List A) → i < length xs → get_elem? (xs ++ ys) i ≡ get_elem? xs i
get_elem?-append_left i [] ys h = absurd (omega arith)
get_elem?-append_left zero (x ∷ xs) ys h = refl
get_elem?-append_left (suc i) (x ∷ xs) ys h = get_elem?-append_left i xs ys (omega arith)

module _ {N : Type 0} (f : Float N) where
  unfoldable pub value_or : Option N → N
  value_or none = f.positive_zero
  value_or (some v) = v

  unfoldable pub apply : ℕ → N → N → N
  apply op left right =
      if op == b'+'
      then f.add left right
      else if op == b'-'
      then f.sub left right
      else if op == b'*'
      then f.mul left right
      else if f.is_zero right
      then f.positive_zero
      else f.div left right

  unfoldable pub eval : Node N → List N → N
  unfolding value_or apply
  eval (number n) values = n
  eval (series i) values = value_or (get_elem? values i)
  eval (negate inner) values = f.neg (eval inner values)
  eval (binary left op right) values = apply op (eval left values) (eval right values)

  unfoldable pub evaluate : Node N → List N → N
  unfolding eval
  evaluate root values =
      let value = eval root values in if f.is_finite value then value else f.positive_zero

  eval-append :
      (count : ℕ) (node : Node N) (values more : List N)
      → IsWithin count node
      → count ≤ length values
      → eval node (values ++ more) ≡ eval node values
  unfolding eval
  eval-append count (number n) values more h l = refl
  eval-append count (series i) values more h l =
      ap value_or (get_elem?-append_left i values more (omega arith))
  eval-append count (negate inner) values more h l =
      ap f.neg (eval-append count inner values more h l)
  eval-append count (binary left op right) values more h l =
      rw (eval-append count left values more h.0 l, eval-append count right values more h.2 l)

  -- With a value for each series of the query, an accepted formula reads no other: what stands behind
  -- them does not change the result.
  pub evaluate-append :
      (parse_f64 : List ℕ → Option N) (text : List ℕ) (count : ℕ) (root : Node N)
      (values more : List N)
      → parse parse_f64 text count ≡ done root
      → count ≤ length values
      → evaluate root (values ++ more) ≡ evaluate root values
  unfolding evaluate
  evaluate-append parse_f64 text count root values more h l =
      rw (eval-append count root values more (parse-IsWithin count parse_f64 text root h) l)
