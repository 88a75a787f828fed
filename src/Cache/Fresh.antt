-- ===== src/Cache/Fresh.antt =====
-- The response that was just stored is found again.
use hoglet.Prelude.{
  ℕ, zero, suc, ◌+◌, ◌^◌, ◌≤◌, ◌<◌, ◌≡◌, refl, sym, ◌∙◌, inl, inr, true, false, ◌||◌, Option, none,
  some, [], ◌∷◌, arith, ltb, Bool-cases, Option-cases, ◌==◌, nat_eq, string_eq, length, all,
  list_eq,
}
use hoglet.Prelude.Map.{Map, lookup, has_key, lookup-insert}
use hoglet.Cache.{
  CacheKey, CacheEntry, CacheState, key_beq, key_beq_iff, key_eq, remove, oldest, evict, is_over,
  tick, add, get, ResultCache, deadline, u64_max, is_expired, put,
}
use hoglet.Cache.Accounting.{total, IsUnique}
use hoglet.Cache.Bounds.{IsAccounted, remove-IsAccounted, IsBounded, add-IsAccounted, remove-less}
use hoglet.Cache.Recent.{NotBefore, oldest-first, lookup-remove_other}

module _ {V : Type 0} where
  -- Every other entry was used before the one of `key`.
  unfoldable pub IsLatest : CacheKey → ℕ → Map CacheKey (CacheEntry V) → Type 0
  IsLatest key access m =
      (j : CacheKey) (e : CacheEntry V)
      → lookup j m ≡ some e
      → key_beq key j ≡ false
      → e.last_access < access

  -- A table of one entry.
  only_one :
      (key : CacheKey) (entry : CacheEntry V) (m : Map CacheKey (CacheEntry V))
      → IsUnique m
      → lookup key m ≡ some entry
      → ((j : CacheKey) (e : CacheEntry V) → lookup j m ≡ some e → key_beq key j ≡ true)
      → (length m ≡ 1) × (total m ≡ entry.bytes)
  unfolding IsUnique total lookup has_key
  only_one key entry [] u found all = absurd (ground (arith, found))
  only_one key entry ((i, f) ∷ []) u found all = ground (arith, found)
  only_one key entry ((i, f) ∷ (j, g) ∷ m) u found all =
      let apart : key_beq i j ≡ false = ground (arith, u, key_beq_iff i j, key_beq_iff j i) in
      let at_i = all i f (ground (arith, key_beq_iff i i)) in
      let at_j = all j g (ground (arith, apart, key_beq_iff j j)) in
      absurd
        (ground (arith, at_i, at_j, apart, key_beq_iff key i, key_beq_iff key j, key_beq_iff i j))

  evict-latest :
      (rounds max_entries max_bytes : ℕ) (s : CacheState V) (key : CacheKey) (entry : CacheEntry V)
      → IsAccounted s
      → lookup key s.entries ≡ some entry
      → IsLatest key entry.last_access s.entries
      → 1 ≤ max_entries
      → entry.bytes ≤ max_bytes
      → lookup key (evict rounds max_entries max_bytes s).entries ≡ some entry
  unfolding evict IsAccounted NotBefore IsLatest
  evict-latest zero me mb s key entry a found latest one fits = found
  evict-latest (suc rounds) me mb s key entry a found latest one fits =
      elim (Option-cases (oldest s.entries)) [
        | inl empty ↦ rw (evict, empty) found
        | inr (k, first) ↦ elim (Bool-cases (is_over me mb s)) [
          | inr fine ↦ rw (evict, first, fine) found
          | inl over ↦
              let (e, at, all) = oldest-first s.entries k a.0 first in
              elim (Bool-cases (key_beq k key)) [
                | inl same ↦
                    let is_key : k ≡ key = (key_beq_iff k key).0 same in
                    let it : some e ≡ some entry = sym at ∙ rw (is_key) found in
                    let single = only_one key entry s.entries a.0 found (λ j f there.
                      elim (Bool-cases (key_beq key j)) [
                        | inl yes_it ↦ yes_it
                        | inr differs ↦
                            absurd (ground (arith, it, latest j f there differs, all j f there))
                      ]) in
                    absurd (ground (arith, a.1, single, over, one, fits))
                | inr other ↦
                    rw (evict, first, over)
                      (evict-latest rounds me mb (remove s k) key entry (remove-IsAccounted s k a)
                        (ground (arith, lookup-remove_other s k key, other, found))
                        (λ j f there differs.
                          latest j f (ground (arith, there, lookup-remove_other s k j)) differs)
                        one fits)
              ]
        ]
      ]

  -- No entry was used after the clock.
  unfoldable pub IsTimed : CacheState V → Type 0
  IsTimed s =
      (j : CacheKey) (e : CacheEntry V)
      → lookup j s.entries ≡ some e
      → e.last_access ≤ s.access_clock

  remove-IsTimed : (s : CacheState V) (key : CacheKey) → IsTimed s → IsTimed (remove s key)
  unfolding IsTimed
  remove-IsTimed s key timed j e there =
      let clock : (remove s key).access_clock ≡ s.access_clock = unfold remove in ground arith in
      ground (arith, clock, lookup-remove_other s key j, timed j e)

  abbrev pub stored : CacheState V → V → ℕ → Option ℕ → ℕ → CacheEntry V
  stored s value bytes ttl now = record {
    value = value;
    bytes = bytes;
    last_access = (tick s).access_clock;
    expires = deadline now ttl;
  }

  add-IsLatest :
      (s : CacheState V) (key : CacheKey) (value : V) (bytes : ℕ) (ttl : Option ℕ) (now : ℕ)
      → IsTimed s
      → s.access_clock < u64_max
      → IsLatest key
          (stored s value bytes ttl now).last_access
          (add s key value bytes ttl now).entries
  unfolding IsTimed IsLatest add
  add-IsLatest s key value bytes ttl now timed ticks j e there differs = ground (
    arith,
    timed j e,
    there,
    differs,
    lookup-insert key j (stored s value bytes ttl now) s.entries,
  )

  get-found :
      (c : ResultCache V) (key : CacheKey) (later : ℕ) (entry : CacheEntry V)
      → lookup key c.state.entries ≡ some entry
      → is_expired later (some entry) ≡ false
      → (get c key later).1 ≡ some entry.value
  unfolding get
  get-found c key later entry found alive = ground (arith, found, alive)

  expires-alive :
      (value : V) (bytes access : ℕ) (ttl : Option ℕ) (now later : ℕ)
      → ((t : ℕ) → ttl ≡ some t → later < now + t)
      → is_expired later (
          some (record {
            value = value;
            bytes = bytes;
            last_access = access;
            expires = deadline now ttl;
          }))
        ≡ false
  expires-alive value bytes access none now later alive = refl
  expires-alive value bytes access (some t) now later alive = ground (arith, alive t refl)

  -- A response that fits the limit on bytes is found until it expires: what `put` adds survives its own
  -- eviction. Before it, the cache is within its limits, one entry at least and fewer than 2 ^ 63 bytes, no
  -- entry was used after the clock, and the clock is below `u64::MAX`.
  pub get-put :
      (c : ResultCache V) (key : CacheKey) (value : V) (bytes : ℕ) (ttl : Option ℕ) (now later : ℕ)
      → IsBounded c
      → c.max_bytes < 2 ^ 63
      → IsTimed c.state
      → c.state.access_clock < u64_max
      → 1 ≤ c.max_entries
      → bytes ≤ c.max_bytes
      → ((t : ℕ) → ttl ≡ some t → later < now + t)
      → (get (put c key value bytes ttl now) key later).1 ≡ some value
  unfolding IsBounded put
  get-put c key value bytes ttl now later b small timed ticks one fits alive =
      let s = remove c.state key in
      let r = remove-less c.state key in
      let clock : s.access_clock ≡ c.state.access_clock = unfold remove in ground arith in
      let next = add s key value bytes ttl now in
      let accounted =
        add-IsAccounted s key value bytes ttl now (remove-IsAccounted c.state key b.0) r.2
          (ground arith) in
      let entry = stored s value bytes ttl now in
      let there : lookup key next.entries ≡ some entry =
        unfold add in ground (arith, lookup-insert key key entry s.entries, key_beq_iff key key) in
      let kept =
        evict-latest (length next.entries) c.max_entries c.max_bytes next key entry accounted there
          (add-IsLatest s key value bytes ttl now (remove-IsTimed c.state key timed)
            (ground (arith, clock)))
          one fits in
      let unfit : (c.max_entries == 0 || ltb c.max_bytes bytes) ≡ false =
        ground (arith, one, fits) in
      get-found (put c key value bytes ttl now) key later entry (rw (put, unfit) kept)
        (expires-alive value bytes (tick s).access_clock ttl now later alive)
