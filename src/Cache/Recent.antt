-- ===== src/Cache/Recent.antt =====
-- Which entries an eviction keeps: the most recently used ones, the one just stored first of all.
use hoglet.Prelude.{
  ℕ, zero, suc, ◌≤◌, ◌<◌, ◌≡◌, refl, sym, ◌∙◌, ◌⊎◌, inl, inr, true, false, none, some, [], ◌∷◌,
  arith, ltb, if◌then◌else◌, Bool-cases, Option-cases, nat_eq, string_eq, all, list_eq,
}
use hoglet.Prelude.Map.{Map, lookup, has_key, lookup-remove}
use hoglet.Cache.{
  CacheKey, CacheEntry, CacheState, key_beq, key_beq_iff, key_eq, remove, least, oldest, evict,
  is_over,
}
use hoglet.Cache.Accounting.{IsUnique, IsUnique-remove}

module _ {V : Type 0} where
  -- Every entry was used at `a` or later.
  unfoldable pub NotBefore : ℕ → Map CacheKey (CacheEntry V) → Type 0
  NotBefore a m = (j : CacheKey) (e : CacheEntry V) → lookup j m ≡ some e → a ≤ e.last_access

  NotBefore-cons :
      (a : ℕ) (i : CacheKey) (f : CacheEntry V) (m : Map CacheKey (CacheEntry V))
      → a ≤ f.last_access
      → NotBefore a m
      → NotBefore a ((i, f) ∷ m)
  unfolding NotBefore lookup
  NotBefore-cons a i f m le all j e h = ground (arith, all j e)

  NotBefore-weaken :
      (a b : ℕ) (m : Map CacheKey (CacheEntry V)) → b ≤ a → NotBefore a m → NotBefore b m
  unfolding NotBefore
  NotBefore-weaken a b m le all j e h = ground (arith, all j e h)

  lookup-here :
      (b i : CacheKey) (f : CacheEntry V) (m : Map CacheKey (CacheEntry V))
      → i ≡ b
      → lookup b ((i, f) ∷ m) ≡ some f
  unfolding lookup
  lookup-here b i f m e = ground (arith, key_beq_iff i b)

  lookup-older :
      (b i : CacheKey) (f entry : CacheEntry V) (m : Map CacheKey (CacheEntry V))
      → has_key i m ≡ false
      → lookup b m ≡ some entry
      → lookup b ((i, f) ∷ m) ≡ some entry
  unfolding lookup has_key
  lookup-older b i f entry m fresh h = ground (arith, key_beq_iff i b)

  -- Either no entry was used before `a`, or `least` picks one that was, and none was used before it.
  least-first :
      (k : CacheKey) (a : ℕ) (m : Map CacheKey (CacheEntry V))
      → IsUnique m
      → ((least (k, a) m ≡ k) × NotBefore a m)
        ⊎ ((entry : CacheEntry V) × (lookup (least (k, a) m) m ≡ some entry)
            × (entry.last_access < a)
            × NotBefore entry.last_access m)
  unfolding least IsUnique
  least-first k a [] u = inl (refl, unfold NotBefore lookup in λ j e h. ground (arith, h))
  least-first k a ((i, f) ∷ m) (fresh, u) = elim (Bool-cases (ltb f.last_access a)) [
    | inl less ↦ elim (least-first i f.last_access m u) [
      | inl (is_i, all) ↦ inr (
        f,
        rw (less) (lookup-here _ i f m (sym is_i)),
        ground arith,
        NotBefore-cons f.last_access i f m (omega arith) all,
      )
      | inr (entry, found, older, all) ↦ inr (
        entry,
        rw (less) (lookup-older _ i f entry m fresh found),
        ground arith,
        NotBefore-cons entry.last_access i f m (omega arith) all,
      )
    ]
    | inr not_less ↦ elim (least-first k a m u) [
      | inl (is_k, all) ↦ inl (rw (not_less) is_k, NotBefore-cons a i f m (ground arith) all)
      | inr (entry, found, older, all) ↦ inr (
        entry,
        rw (not_less) (lookup-older _ i f entry m fresh found),
        older,
        NotBefore-cons entry.last_access i f m (ground arith) all,
      )
    ]
  ]

  pub oldest-first :
      (m : Map CacheKey (CacheEntry V)) (key : CacheKey)
      → IsUnique m
      → oldest m ≡ some key
      → (entry : CacheEntry V) × (lookup key m ≡ some entry) × NotBefore entry.last_access m
  unfolding oldest IsUnique
  oldest-first [] key u h = absurd (ground (arith, h))
  oldest-first ((k, e) ∷ m) key (fresh, u) h =
      let first : least (k, e.last_access) m ≡ key = ground (arith, h) in
      elim (least-first k e.last_access m u) [
        | inl (is_k, all) ↦ (
          e,
          lookup-here key k e m (sym is_k ∙ first),
          NotBefore-cons e.last_access k e m (omega arith) all,
        )
        | inr (entry, found, older, all) ↦ (
          entry,
          lookup-older key k e entry m fresh (rw (first) at found),
          NotBefore-cons entry.last_access k e m (omega arith) all,
        )
      ]

  -- The entries that `remove` leaves are as they were.
  pub lookup-remove_other :
      (s : CacheState V) (key j : CacheKey)
      → lookup j (remove s key).entries ≡ (if key_beq key j then none else lookup j s.entries)
  unfolding remove
  lookup-remove_other s key j = ground (arith, lookup-remove key j s.entries, key_beq_iff key j)

  IsUnique-remove_key :
      (s : CacheState V) (key : CacheKey) → IsUnique s.entries → IsUnique (remove s key).entries
  unfolding remove
  IsUnique-remove_key s key u = elim (Option-cases (lookup key s.entries)) [
    | inl absent ↦ rw (remove, absent) u
    | inr (entry, found) ↦ rw (remove, found) (IsUnique-remove key s.entries u)
  ]

  evict-adds_none :
      (rounds max_entries max_bytes : ℕ) (s : CacheState V) (j : CacheKey)
      → has_key j s.entries ≡ false
      → has_key j (evict rounds max_entries max_bytes s).entries ≡ false
  unfolding evict has_key
  evict-adds_none zero me mb s j h = h
  evict-adds_none (suc rounds) me mb s j h = elim (Option-cases (oldest s.entries)) [
    | inl empty ↦ rw (evict, empty) h
    | inr (key, first) ↦ elim (Bool-cases (is_over me mb s)) [
      | inl over ↦
          rw (evict, first, over)
            (evict-adds_none rounds me mb (remove s key) j
              (ground (arith, h, lookup-remove_other s key j)))
      | inr fine ↦ rw (evict, first, fine) h
    ]
  ]

  -- Of two entries, eviction never drops the one used later and keeps the one used earlier: if `gone` is
  -- evicted and `kept` is not, `gone` was last used no later than `kept`.
  pub evict-lru :
      (rounds max_entries max_bytes : ℕ) (s : CacheState V) (kept gone : CacheKey)
      (k g : CacheEntry V)
      → IsUnique s.entries
      → lookup kept s.entries ≡ some k
      → lookup gone s.entries ≡ some g
      → has_key kept (evict rounds max_entries max_bytes s).entries ≡ true
      → has_key gone (evict rounds max_entries max_bytes s).entries ≡ false
      → g.last_access ≤ k.last_access
  unfolding evict NotBefore
  evict-lru zero me mb s kept gone k g u hk hg stays leaves = unfold has_key in ground arith
  evict-lru (suc rounds) me mb s kept gone k g u hk hg stays leaves =
      elim (Option-cases (oldest s.entries)) [
        | inl empty ↦ unfold has_key in ground (arith, rw (evict, empty) at leaves)
        | inr (key, first) ↦ elim (Bool-cases (is_over me mb s)) [
          | inr fine ↦ unfold has_key in ground (arith, rw (evict, first, fine) at leaves)
          | inl over ↦
              let next = remove s key in
              let stays' = rw (evict, first, over) at stays in
              let leaves' = rw (evict, first, over) at leaves in
              let (entry, found, all) = oldest-first s.entries key u first in
              elim (Bool-cases (key_beq key gone)) [
                | inl dropped ↦
                    let same : key ≡ gone = (key_beq_iff key gone).0 dropped in
                    let order = all kept k hk in ground (arith, order, rw (same) at found)
                | inr later ↦ elim (Bool-cases (key_beq key kept)) [
                  | inl lost ↦
                      let none_left : has_key kept next.entries ≡ false =
                        unfold has_key in ground (arith, lookup-remove_other s key kept) in
                      absurd (ground (arith, evict-adds_none rounds me mb next kept none_left))
                  | inr other ↦
                      evict-lru rounds me mb next kept gone k g (IsUnique-remove_key s key u)
                        (ground (arith, lookup-remove_other s key kept))
                        (ground (arith, lookup-remove_other s key gone)) stays' leaves'
                ]
              ]
        ]
      ]
