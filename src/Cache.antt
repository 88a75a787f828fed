-- ===== src/Cache.antt =====
-- src/cache.rs: the result cache. `Instant::now()` is the argument `now`, a number of nanoseconds. The
-- order in which a `HashMap` is read is that of the list.
mod Accounting
mod Bounds
mod Recent
mod Fresh
mod Tests
use hoglet.Prelude.{
  ℕ, zero, suc, ◌+◌, ◌-◌, ◌*◌, ◌%◌, ◌^◌, String, ◌≡◌, ◌↔◌, Bool, true, false, ◌&&◌, ◌||◌, Option,
  none, some, List, [], ◌∷◌, arith, eq_iff, ltb, leb, if◌then◌else◌, nat_beq_iff, Eq, ◌==◌, nat_eq,
  string_eq, length, list_eq, list_beq_iff,
}
use hoglet.Prelude.Map as Entries
use hoglet.Prelude.Map.{Map, lookup, insert}

pub record CacheKey : Type 0 where
  pub project_id : String
  pub query_hash : List ℕ
  pub data_version : ℕ
  pub identity_epoch : ℕ
  pub identity_seq : ℕ

unfoldable pub key_beq : CacheKey → CacheKey → Bool
key_beq a b =
    a.project_id == b.project_id
    && (a.query_hash == b.query_hash
        && (a.data_version == b.data_version
            && (a.identity_epoch == b.identity_epoch && a.identity_seq == b.identity_seq)))

pub key_beq_iff : (a b : CacheKey) → (key_beq a b ≡ true) ↔ (a ≡ b)
unfolding key_beq
key_beq_iff a b = (
  (λ h. ground (
    arith,
    eq_iff a.project_id b.project_id,
    list_beq_iff a.query_hash b.query_hash,
    nat_beq_iff a.data_version b.data_version,
    nat_beq_iff a.identity_epoch b.identity_epoch,
    nat_beq_iff a.identity_seq b.identity_seq,
  )),
  (λ e. rw (e) (
      ground (
        arith,
        eq_iff b.project_id b.project_id,
        list_beq_iff b.query_hash b.query_hash,
        nat_beq_iff b.data_version b.data_version,
        nat_beq_iff b.identity_epoch b.identity_epoch,
        nat_beq_iff b.identity_seq b.identity_seq,
      ))),
)

instance abbrev pub key_eq : Eq CacheKey
key_eq = record { beq = key_beq; beq_iff = key_beq_iff }

abbrev pub max_cache_bytes : ℕ
max_cache_bytes = 16 * 1024 * 1024

abbrev pub u64_max : ℕ
u64_max = 2 ^ 64 - 1

pub record CacheEntry (V : Type 0) : Type 0 where
  pub value : V
  pub bytes : ℕ
  pub last_access : ℕ
  pub expires : Option ℕ

pub record CacheState (V : Type 0) : Type 0 where
  pub entries : Map CacheKey (CacheEntry V)
  pub response_bytes : ℕ
  pub access_clock : ℕ

pub record ResultCache (V : Type 0) : Type 0 where
  pub state : CacheState V
  pub max_entries : ℕ
  pub max_bytes : ℕ

abbrev pub deadline : ℕ → Option ℕ → Option ℕ
deadline now none = none
deadline now (some ttl) = some (now + ttl)

module _ {V : Type 0} where
  -- `self.access_clock.saturating_add(1)`, which is also the result.
  abbrev pub tick : CacheState V → CacheState V
  tick s = record s {
    access_clock = if ltb s.access_clock u64_max then s.access_clock + 1 else u64_max;
  }

  -- `saturating_sub` is the subtraction on ℕ.
  unfoldable pub remove : CacheState V → CacheKey → CacheState V
  remove s key = elim (lookup key s.entries) [
    | none ↦ s
    | some entry ↦ record s {
      entries = Entries.remove key s.entries;
      response_bytes = s.response_bytes - entry.bytes;
    }
  ]

  unfoldable pub with_limits : ℕ → ℕ → ResultCache V
  with_limits max_entries max_bytes = record {
    state = record { entries = []; response_bytes = 0; access_clock = 0 };
    max_entries = max_entries;
    max_bytes = max_bytes;
  }

  unfoldable pub new : ℕ → ResultCache V
  new max_entries = with_limits max_entries max_cache_bytes

  -- `expires.is_some_and(|expires| Instant::now() >= expires)`
  abbrev pub is_expired : ℕ → Option (CacheEntry V) → Bool
  is_expired now none = false
  is_expired now (some entry) = elim entry.expires [ none ↦ false | some at ↦ leb at now ]

  unfoldable pub get : ResultCache V → CacheKey → ℕ → ResultCache V × Option V
  get cache key now =
      let state = tick cache.state in
      if is_expired now (lookup key state.entries)
      then (record cache { state = remove state key }, none)
      else (elim (lookup key state.entries) [
        | none ↦ (record cache { state = state }, none)
        | some entry ↦ (
          record cache {
            state = record state {
              entries =
                  insert key (record entry { last_access = state.access_clock }) state.entries;
            };
          },
          some entry.value,
        )
      ])

  -- `min_by_key(|(_, entry)| entry.last_access)`: the first of the least ones.
  unfoldable pub least : CacheKey × ℕ → Map CacheKey (CacheEntry V) → CacheKey
  least best [] = best.0
  least best ((k, entry) ∷ m) =
      least (if ltb entry.last_access best.1 then (k, entry.last_access) else best) m

  unfoldable pub oldest : Map CacheKey (CacheEntry V) → Option CacheKey
  oldest [] = none
  oldest ((k, entry) ∷ m) = some (least (k, entry.last_access) m)

  -- `state.entries.len() > self.max_entries || state.response_bytes > self.max_bytes`
  abbrev pub is_over : ℕ → ℕ → CacheState V → Bool
  is_over max_entries max_bytes s =
      ltb max_entries (length s.entries) || ltb max_bytes s.response_bytes

  -- The `while` of `put`. Every round removes an entry, so as many rounds as entries are enough.
  unfoldable pub evict : ℕ → ℕ → ℕ → CacheState V → CacheState V
  evict zero max_entries max_bytes s = s
  evict (suc rounds) max_entries max_bytes s = elim (oldest s.entries) [
    | none ↦ s
    | some key ↦
        let rest = evict rounds max_entries max_bytes (remove s key) in
        if is_over max_entries max_bytes s then rest else s
  ]

  -- The entry that `put` adds, and its bytes. `+=` on a `usize` wraps.
  unfoldable pub add : CacheState V → CacheKey → V → ℕ → Option ℕ → ℕ → CacheState V
  add s key value bytes ttl now =
      let state = tick s in
      record state {
        entries =
            insert key
              (record {
                value = value;
                bytes = bytes;
                last_access = state.access_clock;
                expires = deadline now ttl;
              })
              state.entries;
        response_bytes = (state.response_bytes + bytes) % 2 ^ 64;
      }

  unfoldable pub put : ResultCache V → CacheKey → V → ℕ → Option ℕ → ℕ → ResultCache V
  put cache key value bytes ttl now =
      let state = remove cache.state key in
      if cache.max_entries == 0 || ltb cache.max_bytes bytes
      then record cache { state = state }
      else (let state' = add state key value bytes ttl now in
          record cache {
            state = evict (length state'.entries) cache.max_entries cache.max_bytes state';
          })

  unfoldable pub clear : ResultCache V → ResultCache V
  clear cache = record cache { state = record cache.state { entries = []; response_bytes = 0 } }
