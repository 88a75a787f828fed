-- ===== src/Cache/Tests.antt =====
-- A cache of two entries, and the theorems on it.
use hoglet.Prelude.{ℕ, ◌≤◌, ◌≡◌, refl, none, some, [], ◌∷◌, arith, nat_eq, string_eq, list_eq}
use hoglet.Prelude.Map as Entries
use hoglet.Prelude.Map.{lookup, has_key}
use hoglet.Cache.{
  CacheKey, CacheEntry, ResultCache, key_beq, get, put, oldest, least, evict, remove,
}
use hoglet.Cache.Accounting.{total, IsUnique}
use hoglet.Cache.Bounds.{IsAccounted, IsBounded, put-IsBounded}
use hoglet.Cache.Fresh.{IsTimed, get-put}
use hoglet.Cache.Recent.{evict-lru}

abbrev query : ℕ → CacheKey
query id = record {
  project_id = "p";
  query_hash = id ∷ [];
  data_version = 1;
  identity_epoch = 0;
  identity_seq = 0;
}

abbrev answer : ℕ → CacheEntry ℕ
answer at = record { value = at; bytes = 3; last_access = at; expires = some 100 }

abbrev filled : ResultCache ℕ
filled = record {
  state = record {
    entries = (query 1, answer 1) ∷ (query 2, answer 2) ∷ [];
    response_bytes = 6;
    access_clock = 2;
  };
  max_entries = 2;
  max_bytes = 8;
}

filled-IsBounded : IsBounded filled
unfolding IsBounded IsAccounted IsUnique total has_key lookup key_beq
filled-IsBounded = (((refl, (refl, tt)), refl), omega arith, omega arith)

put-IsBounded_example : IsBounded (put filled (query 3) 3 4 none 5)
put-IsBounded_example = put-IsBounded filled (query 3) 3 4 none 5 filled-IsBounded (omega arith)

evict-lru_example : 1 ≤ 2
unfolding evict IsUnique oldest least lookup has_key key_beq remove Entries.remove
evict-lru_example =
    evict-lru 2 1 8 filled.state (query 2) (query 1) (answer 2) (answer 1) (refl, (refl, tt)) refl
      refl refl refl

filled-IsTimed : IsTimed filled.state
unfolding IsTimed lookup
filled-IsTimed j e there = ground (arith, there)

get-put_example : (get (put filled (query 3) 3 4 (some 9) 5) (query 3) 13).1 ≡ some 3
get-put_example =
    get-put filled (query 3) 3 4 (some 9) 5 13 filled-IsBounded (omega arith) filled-IsTimed
      (omega arith) (omega arith) (omega arith) (λ t given. ground (arith, given))
