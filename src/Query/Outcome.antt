-- ===== src/Query/Outcome.antt =====
-- What a recursive routine ends with: a value, an error, or spent fuel, which has no counterpart in
-- the source.
use mathlib.Core.Path.{subst}
use hoglet.Prelude.{◌≡◌, refl, ◌≢◌, Bool, true, false}

pub data Outcome {ℓ κ} (A : Type ℓ) (E : Type κ) : Type (ℓ ⊔ κ) where
  done : A → Outcome A E
  failed : E → Outcome A E
  out_of_fuel : Outcome A E

infixl 5 ◌>>=◌ ◌>>◌
abbrev pub ◌>>=◌ {ℓ κ μ} :
    {A : Type ℓ} {B : Type κ} {E : Type μ} → Outcome A E → (A → Outcome B E) → Outcome B E
done a >>= f = f a
failed e >>= f = failed e
out_of_fuel >>= f = out_of_fuel

abbrev pub ◌>>◌ {ℓ κ} : {B : Type ℓ} {E : Type κ} → Outcome (Unit {0}) E → Outcome B E → Outcome B E
m >> k = m >>= λ _. k

-- `if test { return Err(e) }`.
abbrev pub fail_if {κ} : {E : Type κ} → Bool → E → Outcome (Unit {0}) E
fail_if true e = failed e
fail_if false e = done tt

-- The fuel was enough, and `P` holds of the value if there is one.
abbrev pub Ensures {ℓ κ} : {A : Type ℓ} {E : Type κ} → (A → Type 0) → Outcome A E → Type 0
Ensures P (done a) = P a
Ensures P (failed e) = Unit
Ensures P out_of_fuel = ⊥

module _ {ℓ κ} {A : Type ℓ} {E : Type κ} (P : A → Type 0) where
  pub Ensures-fail_if :
      (b : Bool) (e : E) (r : Outcome A E)
      → (b ≡ false → Ensures P r)
      → Ensures P (fail_if b e >>= λ _. r)
  Ensures-fail_if true e r h = tt
  Ensures-fail_if false e r h = h refl

  pub Ensures-bind {ν} :
      {B : Type ν} (Q : B → Type 0) (m : Outcome B E) (f : B → Outcome A E)
      → Ensures Q m
      → ((b : B) → Q b → Ensures P (f b))
      → Ensures P (m >>= f)
  Ensures-bind Q (done b) f h k = k b h
  Ensures-bind Q (failed e) f h k = tt
  Ensures-bind Q out_of_fuel f h k = absurd h

  pub Ensures-done : (m : Outcome A E) (a : A) → Ensures P m → m ≡ done a → P a
  Ensures-done (done b) a h e = subst P (cc) h
  Ensures-done (failed x) a h e = absurd (cc)
  Ensures-done out_of_fuel a h e = absurd h

  pub Ensures-ends : (m : Outcome A E) → Ensures P m → m ≢ out_of_fuel
  Ensures-ends (done b) h = cc
  Ensures-ends (failed x) h = cc
  Ensures-ends out_of_fuel h = absurd h

  pub Ensures-test :
      (b : Bool) (x y : Outcome A E)
      → (b ≡ true → Ensures P x)
      → (b ≡ false → Ensures P y)
      → Ensures P (elim b [ true ↦ x | false ↦ y ])
  Ensures-test true x y h k = h refl
  Ensures-test false x y h k = k refl

  pub Ensures-mono :
      (Q : A → Type 0) (m : Outcome A E) → ((a : A) → P a → Q a) → Ensures P m → Ensures Q m
  Ensures-mono Q (done a) k h = k a h
  Ensures-mono Q (failed e) k h = tt
  Ensures-mono Q out_of_fuel k h = absurd h
