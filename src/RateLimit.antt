-- ===== src/RateLimit.antt =====
-- src/ratelimit.rs: the fixed one-second window of each token. The mutex makes each call of `allow`
-- one step, so the state is passed explicitly; `now_secs` is an argument, as in the source.
mod Laws
mod Tests
use hoglet.Prelude.{
  ℕ, ◌+◌, ◌-◌, ◌^◌, String, Bool, true, not, ◌&&◌, none, some, [], ltb, leb, if◌then◌else◌, ◌==◌,
  nat_eq, string_eq, length,
}
use hoglet.Prelude.Int.{ℤ, pos, ℤ_eq}
use hoglet.Prelude.Map.{Map, lookup, insert, has_key}

abbrev pub default_max_per_sec : ℕ
default_max_per_sec = 10000

abbrev pub max_tracked_tokens : ℕ
max_tracked_tokens = 50000

abbrev pub u32_max : ℕ
u32_max = 2 ^ 32 - 1

pub record Window : Type 0 where
  pub second : ℤ
  pub counts : Map String ℕ

pub record RateLimiter : Type 0 where
  pub max_per_sec : ℕ
  pub window : Window

unfoldable pub new : ℕ → RateLimiter
new max_per_sec = record {
  max_per_sec = max_per_sec;
  window = record { second = pos 0; counts = [] };
}

abbrev pub saturating_add : ℕ → ℕ → ℕ
saturating_add a b = if ltb u32_max (a + b) then u32_max else a + b

-- `if now_secs != w.second { w.second = now_secs; w.counts.clear(); }`
unfoldable pub roll : Window → ℤ → Window
roll w now_secs = if now_secs == w.second then w else record { second = now_secs; counts = [] }

-- `entry(token).or_insert(0)`
abbrev pub spent_so_far : Window → String → ℕ
spent_so_far w token = elim (lookup token w.counts) [ none ↦ 0 | some n ↦ n ]

unfoldable pub count_in : ℕ → Window → String → ℕ → Window × Bool
count_in max_per_sec w token n =
    if leb max_tracked_tokens (length w.counts) && not (has_key token w.counts)
    then (w, true)
    else (let entry = saturating_add (spent_so_far w token) n in
        (record w { counts = insert token entry w.counts }, leb entry max_per_sec))

unfoldable pub allow : RateLimiter → String → ℕ → ℤ → RateLimiter × Bool
unfolding roll count_in
allow r token n now_secs =
    let (w, verdict) = count_in r.max_per_sec (roll r.window now_secs) token n in
    (record r { window = w }, verdict)
