-- ===== src/Cache/Bounds.antt =====
-- The two limits of the cache, and the sum that it keeps of the bytes.
use hoglet.Prelude.{
  ℕ, zero, suc, ◌+◌, ◌^◌, ◌≤◌, ◌<◌, ◌≡◌, refl, ◌⊎◌, inl, inr, true, false, ◌||◌, Option, none, some,
  [], ◌∷◌, arith, ltb, Bool-cases, Option-cases, ◌==◌, nat_eq, string_eq, length, list_eq,
}
use hoglet.Prelude.Map.{Map, lookup, has_key, lookup-remove, length-insert_present}
use hoglet.Cache.{
  CacheKey, CacheEntry, CacheState, ResultCache, key_eq, remove, get, put, least, oldest, evict,
  add, key_beq_iff, is_over, tick, deadline, is_expired,
}
use hoglet.Cache.Accounting.{
  total, IsUnique, bytes_of, IsUnique-remove, IsUnique-insert, total-insert, total-remove,
  length-remove_present, length-remove,
}

module _ {V : Type 0} where
  -- One entry for each key, and `response_bytes` is the sum of their bytes.
  unfoldable pub IsAccounted : CacheState V → Type 0
  IsAccounted s = IsUnique s.entries × (s.response_bytes ≡ total s.entries)

  -- An accounted state within the limits.
  unfoldable pub IsBounded : ResultCache V → Type 0
  IsBounded c =
      IsAccounted c.state
      × (length c.state.entries ≤ c.max_entries)
      × (c.state.response_bytes ≤ c.max_bytes)

  pub remove-IsAccounted :
      (s : CacheState V) (key : CacheKey) → IsAccounted s → IsAccounted (remove s key)
  unfolding remove IsAccounted bytes_of
  remove-IsAccounted s key (u, sum) = elim (Option-cases (lookup key s.entries)) [
    | inl absent ↦ rw (remove, absent) (u, sum)
    | inr (entry, found) ↦
        rw (remove, found)
          (IsUnique-remove key s.entries u, ground (arith, total-remove key s.entries u))
  ]

  least-is_key :
      (k : CacheKey) (a : ℕ) (m : Map CacheKey (CacheEntry V))
      → (least (k, a) m ≡ k) ⊎ (has_key (least (k, a) m) m ≡ true)
  unfolding least has_key lookup
  least-is_key k a [] = inl refl
  least-is_key k a ((j, e) ∷ m) = elim (Bool-cases (ltb e.last_access a)) [
    | inl less ↦
        rw (least, less)
          (ground
            (arith, least-is_key j e.last_access m, key_beq_iff j (least (j, e.last_access) m)))
    | inr not_less ↦ rw (least, not_less) (ground (arith, least-is_key k a m))
  ]

  oldest-has_key :
      (m : Map CacheKey (CacheEntry V)) (key : CacheKey)
      → oldest m ≡ some key
      → has_key key m ≡ true
  unfolding oldest has_key lookup
  oldest-has_key [] key h = ground arith
  oldest-has_key ((k, e) ∷ m) key h =
      ground (arith, least-is_key k e.last_access m, key_beq_iff k key)

  length-remove-oldest :
      (s : CacheState V) (key : CacheKey)
      → oldest s.entries ≡ some key
      → length (remove s key).entries < length s.entries
  unfolding remove has_key
  length-remove-oldest s key h =
      ground (arith, oldest-has_key s.entries key h, length-remove_present key s.entries)

  total-empty : (m : Map CacheKey (CacheEntry V)) → length m ≤ 0 → total m ≡ 0
  unfolding total
  total-empty [] h = refl
  total-empty ((k, e) ∷ m) h = absurd (omega arith)

  length-oldest : (m : Map CacheKey (CacheEntry V)) → oldest m ≡ none → length m ≤ 0
  unfolding oldest
  length-oldest [] h = omega arith
  length-oldest ((k, e) ∷ m) h = ground (arith, h)

  -- As many rounds as entries bring an accounted state within the limits.
  pub evict-bounded :
      (rounds max_entries max_bytes : ℕ) (s : CacheState V)
      → IsAccounted s
      → length s.entries ≤ rounds
      → IsAccounted (evict rounds max_entries max_bytes s)
        × (length (evict rounds max_entries max_bytes s).entries ≤ max_entries)
        × ((evict rounds max_entries max_bytes s).response_bytes ≤ max_bytes)
  unfolding evict IsAccounted
  evict-bounded zero me mb s a fits =
      (a, ground (arith, a, total-empty s.entries), ground (arith, a, total-empty s.entries))
  evict-bounded (suc rounds) me mb s a fits = elim (Option-cases (oldest s.entries)) [
    | inl empty ↦
        rw (evict, empty)
          (
            a,
            ground (arith, length-oldest s.entries empty),
            ground (arith, a, total-empty s.entries, length-oldest s.entries empty),
          )
    | inr (key, first) ↦
        let next =
          evict-bounded rounds me mb (remove s key) (remove-IsAccounted s key a)
            (ground (arith, length-remove-oldest s key first)) in
        elim (Bool-cases (is_over me mb s)) [
          | inl over ↦ rw (evict, first, over) next
          | inr fine ↦ rw (evict, first, fine) (ground arith)
        ]
  ]

  pub add-IsAccounted :
      (s : CacheState V) (key : CacheKey) (value : V) (bytes : ℕ) (ttl : Option ℕ) (now : ℕ)
      → IsAccounted s
      → has_key key s.entries ≡ false
      → s.response_bytes + bytes < 2 ^ 64
      → IsAccounted (add s key value bytes ttl now)
  unfolding add IsAccounted bytes_of has_key
  add-IsAccounted s key value bytes ttl now (u, sum) absent small = (
    IsUnique-insert key _ s.entries u,
    ground (
      arith,
      total-insert key
          (record {
            value = value;
            bytes = bytes;
            last_access = (tick s).access_clock;
            expires = deadline now ttl;
          })
          s.entries,
    ),
  )

  pub remove-less :
      (s : CacheState V) (key : CacheKey)
      → ((remove s key).response_bytes ≤ s.response_bytes)
        × (length (remove s key).entries ≤ length s.entries)
        × (has_key key (remove s key).entries ≡ false)
  unfolding remove has_key
  remove-less s key =
      ground
        (arith, length-remove key s.entries, lookup-remove key key s.entries, key_beq_iff key key)

  -- Storing a response in a cache that is within both limits, with one entry for each key and the right sum
  -- of bytes, keeps it so, if the limit on bytes is below 2 ^ 63: the eviction ends within the limits.
  pub put-IsBounded :
      (c : ResultCache V) (key : CacheKey) (value : V) (bytes : ℕ) (ttl : Option ℕ) (now : ℕ)
      → IsBounded c
      → c.max_bytes < 2 ^ 63
      → IsBounded (put c key value bytes ttl now)
  unfolding put IsBounded
  put-IsBounded c key value bytes ttl now b small =
      let r = remove-less c.state key in
      let accounted = remove-IsAccounted c.state key b.0 in
      let state = remove c.state key in
      elim (Bool-cases (c.max_entries == 0 || ltb c.max_bytes bytes)) [
        | inl unfit ↦ rw (put, unfit) (accounted, ground arith, ground arith)
        | inr fit ↦
            let next = add state key value bytes ttl now in
            rw (put, fit)
              (evict-bounded (length next.entries) c.max_entries c.max_bytes next
                (add-IsAccounted state key value bytes ttl now accounted r.2 (ground arith))
                (omega arith))
      ]

  -- A lookup, which drops an entry that has expired, keeps a cache that is within both limits so, with one
  -- entry for each key and the right sum of bytes.
  get-IsBounded :
      (c : ResultCache V) (key : CacheKey) (now : ℕ) → IsBounded c → IsBounded (get c key now).0
  unfolding get IsBounded IsAccounted bytes_of has_key
  get-IsBounded c key now b =
      let r = remove-less (tick c.state) key in
      elim (Bool-cases (is_expired now (lookup key c.state.entries))) [
        | inl late ↦
            rw (get, late) (remove-IsAccounted (tick c.state) key b.0, ground arith, ground arith)
        | inr alive ↦ elim (Option-cases (lookup key c.state.entries)) [
          | inl absent ↦ rw (get, alive, absent) b
          | inr (entry, found) ↦
              rw (get, alive, found)
                (
                  (
                    IsUnique-insert key _ c.state.entries b.0.0,
                    ground (
                      arith,
                      b.0,
                      total-insert key (record entry { last_access = (tick c.state).access_clock })
                          c.state.entries,
                    ),
                  ),
                  ground (
                    arith,
                    b,
                    length-insert_present key
                        (record entry { last_access = (tick c.state).access_clock })
                        c.state.entries,
                  ),
                  ground (arith, b),
                )
        ]
      ]
