-- ===== src/Flags/Evaluation/Variants.antt =====
-- The variants that an evaluation may give.
use hoglet.Flags.Evaluation.Decides.{decided, evaluate-first, missed, first}
use hoglet.Prelude.{
  ℕ, String, ◌≡◌, ◌∙◌, ◌≢◌, inl, inr, Bool, true, false, Option, none, some, List, [], ◌∷◌, arith,
  eq_iff, if◌then◌else◌, Bool-cases, Option-cases, ◌==◌, nat_eq, string_eq, any, list_eq,
}
use hoglet.Flags.Library.{Library}
use hoglet.Flags.Evaluation.{
  FlagVariant, CompiledFlag, has_variant, variant_in, matching_variant, hash, forced_variant,
  FlagConditionGroup, Object, matched, ℤ, Evaluation, evaluate, no_condition_match, is_match,
  is_out,
}

module _ (lib : Library) where
  variant_in-any :
      (value low : lib.Float) (variants : List (FlagVariant lib.Float)) (key : String)
      → variant_in lib value low variants ≡ some key
      → any (λ (v : FlagVariant lib.Float). v.key == key) variants ≡ true
  unfolding variant_in
  variant_in-any value low [] key h = ground (arith, h)
  variant_in-any value low (v ∷ vs) key h = ground (
    arith,
    h,
    eq_iff v.key key,
    variant_in-any value (lib.add low (lib.divide v.rollout_percentage (lib.from_nat 100))) vs key,
  )

  module _ (f : CompiledFlag lib) (id : String) where
    matching_variant-has_variant :
        (key : String) → matching_variant lib f id ≡ some key → has_variant lib f key ≡ true
    unfolding matching_variant has_variant
    matching_variant-has_variant key h = elim (Option-cases f.flag.filters.multivariate) [
      | inl single ↦ ground (arith, rw (matching_variant, single) at h)
      | inr (variants, several) ↦
          rw (has_variant, several)
            (variant_in-any (hash lib f.flag.key id "variant") (lib.from_nat 0) variants key
              (rw (matching_variant, several) at h))
    ]

    forced_variant-has_variant :
        (wanted : Option String) (key : String)
        → forced_variant lib f wanted ≡ some key
        → has_variant lib f key ≡ true
    forced_variant-has_variant none key h = ground (arith, h)
    forced_variant-has_variant (some other) key h = elim (Bool-cases (has_variant lib f other)) [
      | inl has ↦
          let same = rw (has) at h in
          let is_key : other ≡ key = ground (arith, same) in rw (← is_key) has
      | inr lacks ↦ ground (arith, rw (lacks) at h)
    ]

    matched-has_variant :
        (group : FlagConditionGroup lib.Float) (index : ℕ) (key : String)
        → (matched lib f group id index).variant ≡ some key
        → has_variant lib f key ≡ true
    matched-has_variant group index key h =
        elim (Option-cases (forced_variant lib f group.variant)) [
          | inl free ↦ matching_variant-has_variant key (rw (matched, free) at h)
          | inr (forced, is) ↦
              forced_variant-has_variant group.variant key (is ∙ (rw (matched, is) at h))
        ]

  decided-has_variant :
      (f : CompiledFlag lib) (id : String) (properties : Object) (now : ℤ)
      (found : Option (ℕ × FlagConditionGroup lib.Float)) (otherwise : Evaluation) (key : String)
      → ((otherwise.variant ≡ some key) → has_variant lib f key ≡ true)
      → (decided lib f id properties now found otherwise).variant ≡ some key
      → has_variant lib f key ≡ true
  decided-has_variant f id properties now none otherwise key other h = other h
  decided-has_variant f id properties now (some (index, group)) otherwise key other h =
      matched-has_variant f id group index key h

  missed-no_variant :
      (f : CompiledFlag lib) (id : String) (properties : Object) (now : ℤ)
      (out : Option (ℕ × FlagConditionGroup lib.Float)) (key : String)
      → (missed lib f id properties now no_condition_match none out).variant ≢ some key
  missed-no_variant f id properties now none key h = ground (arith, h)
  missed-no_variant f id properties now (some (index, group)) key h = ground (arith, h)

  either_has_variant :
      (f : CompiledFlag lib) (b : Bool) (x y : Evaluation) (key : String)
      → ((x.variant ≡ some key) → has_variant lib f key ≡ true)
      → ((y.variant ≡ some key) → has_variant lib f key ≡ true)
      → (if b then x else y).variant ≡ some key
      → has_variant lib f key ≡ true
  either_has_variant f true x y key p q h = p h
  either_has_variant f false x y key p q h = q h

  -- The variant that an evaluation gives is one of the flag's own.
  pub evaluate-has_variant :
      (f : CompiledFlag lib) (id : String) (properties : Object) (now : ℤ) (key : String)
      → (evaluate lib f id properties now).variant ≡ some key
      → has_variant lib f key ≡ true
  evaluate-has_variant f id properties now key h =
      let e = evaluate-first lib f id properties now in
      let found = first lib f id properties now is_match 0 f.flag.filters.groups in
      let out = first lib f id properties now is_out 0 f.flag.filters.groups in
      either_has_variant f f.flag.active _ _ key
        (decided-has_variant f id properties now found
          (missed lib f id properties now no_condition_match none out) key
          (λ m. absurd (missed-no_variant f id properties now out key m)))
        (λ m. ground (arith, m)) (rw (e) at h)
