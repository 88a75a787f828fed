-- ===== src/Cache/Accounting.antt =====
-- The bytes of the entries, and the tables of one entry for each key.
use hoglet.Prelude.{
  ℕ, ◌+◌, ◌≤◌, ◌<◌, ◌≡◌, refl, inl, inr, true, false, none, some, [], ◌∷◌, arith, Bool-cases,
  nat_eq, string_eq, length, list_eq,
}
use hoglet.Prelude.Map.{Map, lookup, insert, remove, has_key, lookup-remove, lookup-insert}
use hoglet.Cache.{CacheKey, CacheEntry, key_eq, key_beq_iff, key_beq}

module _ {V : Type 0} where
  unfoldable pub total : Map CacheKey (CacheEntry V) → ℕ
  total [] = 0
  total ((k, entry) ∷ m) = entry.bytes + total m

  unfoldable pub IsUnique : Map CacheKey (CacheEntry V) → Type 0
  IsUnique [] = Unit
  IsUnique ((k, entry) ∷ m) = (has_key k m ≡ false) × IsUnique m

  -- The bytes of the entry of a key.
  unfoldable pub bytes_of : CacheKey → Map CacheKey (CacheEntry V) → ℕ
  bytes_of k m = elim (lookup k m) [ none ↦ 0 | some entry ↦ entry.bytes ]

  remove-absent :
      (k : CacheKey) (m : Map CacheKey (CacheEntry V)) → has_key k m ≡ false → remove k m ≡ m
  unfolding remove has_key lookup
  remove-absent k [] h = refl
  remove-absent k ((j, e) ∷ m) h = ground (arith, remove-absent k m)

  has_key-remove :
      (k j : CacheKey) (m : Map CacheKey (CacheEntry V))
      → has_key j m ≡ false
      → has_key j (remove k m) ≡ false
  unfolding has_key
  has_key-remove k j m h = ground (arith, lookup-remove k j m)

  pub IsUnique-remove :
      (k : CacheKey) (m : Map CacheKey (CacheEntry V)) → IsUnique m → IsUnique (remove k m)
  unfolding IsUnique remove
  IsUnique-remove k [] u = tt
  IsUnique-remove k ((j, e) ∷ m) (fresh, u) = elim (Bool-cases (key_beq j k)) [
    | inl same ↦ rw (same) (IsUnique-remove k m u)
    | inr other ↦ rw (other) (has_key-remove k j m fresh, IsUnique-remove k m u)
  ]

  has_key-insert :
      (k j : CacheKey) (entry : CacheEntry V) (m : Map CacheKey (CacheEntry V))
      → key_beq k j ≡ false
      → has_key j m ≡ false
      → has_key j (insert k entry m) ≡ false
  unfolding has_key
  has_key-insert k j entry m other h = ground (arith, lookup-insert k j entry m)

  pub IsUnique-insert :
      (k : CacheKey) (entry : CacheEntry V) (m : Map CacheKey (CacheEntry V))
      → IsUnique m
      → IsUnique (insert k entry m)
  unfolding IsUnique insert
  IsUnique-insert k entry [] u = (unfold has_key lookup in refl, tt)
  IsUnique-insert k entry ((j, e) ∷ m) (fresh, u) = elim (Bool-cases (key_beq j k)) [
    | inl same ↦
        let moved : has_key k m ≡ false = ground (arith, key_beq_iff j k) in rw (same) (moved, u)
    | inr other ↦
        let differ : key_beq k j ≡ false = ground (arith, key_beq_iff j k, key_beq_iff k j) in
        rw (other) (has_key-insert k j entry m differ fresh, IsUnique-insert k entry m u)
  ]

  pub total-insert :
      (k : CacheKey) (entry : CacheEntry V) (m : Map CacheKey (CacheEntry V))
      → total (insert k entry m) + bytes_of k m ≡ total m + entry.bytes
  unfolding total insert bytes_of lookup
  total-insert k entry [] = omega arith
  total-insert k entry ((j, e) ∷ m) = ground (arith, total-insert k entry m)

  pub length-remove :
      (k : CacheKey) (m : Map CacheKey (CacheEntry V)) → length (remove k m) ≤ length m
  unfolding remove
  length-remove k [] = omega arith
  length-remove k ((j, e) ∷ m) = ground (arith, length-remove k m)

  pub length-remove_present :
      (k : CacheKey) (m : Map CacheKey (CacheEntry V))
      → has_key k m ≡ true
      → length (remove k m) < length m
  unfolding remove has_key lookup
  length-remove_present k [] h = ground arith
  length-remove_present k ((j, e) ∷ m) h =
      ground (arith, length-remove_present k m, length-remove k m)

  pub total-remove :
      (k : CacheKey) (m : Map CacheKey (CacheEntry V))
      → IsUnique m
      → total (remove k m) + bytes_of k m ≡ total m
  unfolding total remove bytes_of lookup IsUnique
  total-remove k [] u = refl
  total-remove k ((j, e) ∷ m) (fresh, u) =
      ground (arith, total-remove k m u, remove-absent k m, key_beq_iff j k)
