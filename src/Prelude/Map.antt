-- ===== src/Prelude/Map.antt =====
-- `HashMap` and `BTreeMap` as association lists with one entry for a key.
use Prim.Native.Nat.{◌≤◌, ◌+◌}
use mathlib.Core.Path.{◌≡◌, refl, ap}
use mathlib.Core.Bool.{Bool, true, false, ◌&&◌}
use mathlib.Core.Logic.{◌↔◌}
use mathlib.Core.Option
use mathlib.Core.Option.{Option, none, some}
use mathlib.Core.List.{List, [], ◌∷◌}
use native.Mathlib.Omega.{arith}
use hoglet.Prelude.Tests.{Eq, ◌==◌, if◌then◌else◌}
use hoglet.Prelude.Lists.{length}

abbrev pub Map {ℓ κ} : Type ℓ → Type κ → Type (ℓ ⊔ κ)
Map K V = List (K × V)

module _ {ℓ κ} {K : Type ℓ} {V : Type κ} ⦃e : Eq K⦄ where
  unfoldable pub lookup : K → Map K V → Option V
  lookup k [] = none
  lookup k ((j, v) ∷ m) = if j == k then some v else lookup k m

  -- Replaces the entry of a key that is there, and else adds one.
  unfoldable pub insert : K → V → Map K V → Map K V
  insert key value [] = (key, value) ∷ []
  insert key value ((j, old) ∷ rest) =
      if j == key then (key, value) ∷ rest else (j, old) ∷ insert key value rest

  unfoldable pub remove : K → Map K V → Map K V
  remove k [] = []
  remove k ((j, w) ∷ m) = let rest = remove k m in if j == k then rest else (j, w) ∷ rest

  unfoldable pub has_key : K → Map K V → Bool
  has_key k m = elim (lookup k m) [ none ↦ false | some _ ↦ true ]

  pub lookup-insert :
      (k wanted : K) (v : V) (rest : Map K V)
      → lookup wanted (insert k v rest) ≡ (if k == wanted then some v else lookup wanted rest)
  unfolding lookup insert
  lookup-insert k wanted v [] = refl
  lookup-insert k wanted v ((i, old) ∷ rest) =
      ground (
        arith,
        e.beq_iff k wanted,
        e.beq_iff i k,
        e.beq_iff i wanted,
        lookup-insert k wanted v rest,
      )

  pub lookup-remove :
      (k j : K) (m : Map K V) → lookup j (remove k m) ≡ (if k == j then none else lookup j m)
  unfolding lookup remove
  lookup-remove k j [] = ground arith
  lookup-remove k j ((i, w) ∷ m) =
      ground (arith, e.beq_iff k j, e.beq_iff i k, e.beq_iff i j, lookup-remove k j m)

  pub length-insert : (k : K) (v : V) (m : Map K V) → length (insert k v m) ≤ length m + 1
  unfolding insert
  length-insert k v [] = omega arith
  length-insert k v ((j, w) ∷ m) = ground (arith, length-insert k v m)

  pub length-insert_present :
      (k : K) (v : V) (m : Map K V) → has_key k m ≡ true → length (insert k v m) ≡ length m
  unfolding insert has_key lookup
  length-insert_present k v [] h = ground arith
  length-insert_present k v ((j, w) ∷ m) h = ground (arith, length-insert_present k v m)

pub ==_refl {ℓ} : {K : Type ℓ} ⦃e : Eq K⦄ (k : K) → (k == k) ≡ true
==_refl ⦃e⦄ k = (e.beq_iff k k).1 refl

-- Keys of two parts.
abbrev pub pair_beq : {A B : Type 0} ⦃a : Eq A⦄ ⦃b : Eq B⦄ → A × B → A × B → Bool
pair_beq ⦃a⦄ ⦃b⦄ p q = a.beq p.0 q.0 && b.beq p.1 q.1

pub pair_beq_iff :
    {A B : Type 0} ⦃a : Eq A⦄ ⦃b : Eq B⦄ (p q : A × B) → (pair_beq p q ≡ true) ↔ (p ≡ q)
pair_beq_iff ⦃a⦄ ⦃b⦄ (x, y) (u, v) = (
  (λ h. ground (arith, a.beq_iff x u, b.beq_iff y v)),
  (λ h. ground (arith, a.beq_iff x u, b.beq_iff y v, ap (λ p. p.0) h, ap (λ p. p.1) h)),
)

instance abbrev pub pair_eq : {A B : Type 0} ⦃a : Eq A⦄ ⦃b : Eq B⦄ → Eq (A × B)
pair_eq = record { beq = pair_beq; beq_iff = pair_beq_iff }

-- `UPDATE … SET value = f(key, value)`.
module _ {ℓ κ} {K : Type ℓ} {V : Type κ} ⦃e : Eq K⦄ where
  unfoldable pub map_values : (K → V → V) → Map K V → Map K V
  map_values f [] = []
  map_values f ((k, v) ∷ m) = (k, f k v) ∷ map_values f m

  pub lookup-map_values :
      (f : K → V → V) (k : K) (m : Map K V)
      → lookup k (map_values f m) ≡ Option.map (f k) (lookup k m)
  unfolding lookup map_values
  lookup-map_values f k [] = refl
  lookup-map_values f k ((j, v) ∷ m) = ground (arith, e.beq_iff j k, lookup-map_values f k m)

pub ruleset map_laws = (lookup-insert, lookup-remove, ==_refl)
