-- ===== src/RateLimit/Laws.antt =====
-- What the limiter promises: a bounded table, and an exact budget for each token and second.
use hoglet.Prelude.{
  ℕ, suc, ◌+◌, ◌≤◌, ◌<◌, min, String, ◌≡◌, refl, sym, ap, ◌∙◌, ◌≢◌, inl, inr, List, [], ◌∷◌, arith,
  eq_iff, leb, if◌then◌else◌, Bool-cases, ◌==◌, nat_eq, string_eq, length, list_eq,
}
use mathlib.Core.Path.{ap₂}
use hoglet.Prelude.Int.{ℤ, ℤ_eq}
use hoglet.Prelude.Map.{lookup, lookup-insert, length-insert, length-insert_present}
use hoglet.RateLimit.{
  RateLimiter, max_tracked_tokens, u32_max, saturating_add, roll, spent_so_far, allow, new,
}

allow_bounded :
    (r : RateLimiter) (token : String) (n : ℕ) (now_secs : ℤ)
    → length r.window.counts ≤ max_tracked_tokens
    → length (allow r token n now_secs).0.window.counts ≤ max_tracked_tokens
unfolding allow
allow_bounded r token n now_secs h =
    let w = roll r.window now_secs in
    let m = saturating_add (spent_so_far w token) n in
    ground (arith, length-insert token m w.counts, length-insert_present token m w.counts)

-- A call of `allow`: its token, its events and its time.
pub record Call : Type 0 where
  pub token : String
  pub events : ℕ
  pub at_secs : ℤ

-- One after the other, calls at any times.
unfoldable pub calls_of : RateLimiter → List Call → RateLimiter
calls_of r [] = r
calls_of r (call ∷ calls) = calls_of (allow r call.token call.events call.at_secs).0 calls

calls_of_bounded :
    (calls : List Call) (r : RateLimiter)
    → length r.window.counts ≤ max_tracked_tokens
    → length (calls_of r calls).window.counts ≤ max_tracked_tokens
unfolding calls_of
calls_of_bounded [] r h = h
calls_of_bounded (call ∷ calls) r h =
    calls_of_bounded calls (allow r call.token call.events call.at_secs).0
      (allow_bounded r call.token call.events call.at_secs h)

-- Whatever calls a new limiter is asked, at whatever times, its table never holds more than
-- `max_tracked_tokens` tokens.
pub calls_of-new-bounded :
    (max_per_sec : ℕ) (calls : List Call)
    → length (calls_of (new max_per_sec) calls).window.counts ≤ max_tracked_tokens
unfolding new
calls_of-new-bounded max_per_sec calls = calls_of_bounded calls (new max_per_sec) (omega arith)

-- One after the other, the calls of one second.
unfoldable pub run : RateLimiter → ℤ → List (String × ℕ) → RateLimiter
run r now_secs [] = r
run r now_secs ((token, n) ∷ calls) = run (allow r token n now_secs).0 now_secs calls

-- How many events of a token the calls announced.
unfoldable pub announced : String → List (String × ℕ) → ℕ
announced token [] = 0
announced token ((t, n) ∷ calls) = (if t == token then n else 0) + announced token calls

-- The window of `r` counts in the second `now`, has room for `room` more tokens, and `token` spent
-- `total` in it.
record Tracks (r : RateLimiter) (now : ℤ) (token : String) (total room : ℕ) : Type 0 where
  second : r.window.second ≡ now
  space : length r.window.counts + room < max_tracked_tokens
  count : spent_so_far r.window token ≡ min total u32_max

Tracks-allow :
    (r : RateLimiter) (now : ℤ) (token : String) (total room : ℕ) (t : String) (n : ℕ)
    → Tracks r now token total (suc room)
    → Tracks (allow r t n now).0 now token (total + (if t == token then n else 0)) room
unfolding allow
Tracks-allow r now token total room t n h =
    let m = saturating_add (spent_so_far r.window t) n in
    record {
      second = ground (arith, ℤ_eq.beq_iff now r.window.second);
      space = ground (arith, ℤ_eq.beq_iff now r.window.second, length-insert t m r.window.counts);
      count = ground (
        arith,
        ℤ_eq.beq_iff now r.window.second,
        lookup-insert t token m r.window.counts,
        eq_iff t token,
      );
    }

run-Tracks :
    (calls : List (String × ℕ)) (r : RateLimiter) (now : ℤ) (token : String) (total room : ℕ)
    → Tracks r now token total (length calls + room)
    → Tracks (run r now calls) now token (total + announced token calls) room
unfolding run announced
run-Tracks [] r now token total room h = record {
  second = h.second;
  space = omega (arith, h.space);
  count = let e : total + 0 ≡ total = omega arith in rw e h.count;
}
run-Tracks ((t, n) ∷ calls) r now token total room h =
    let k = if t == token then n else 0 in
    let e : total + (k + announced token calls) ≡ total + k + announced token calls = omega arith in
    let e' : suc (length calls) + room ≡ suc (length calls + room) = omega arith in
    rw e (
      run-Tracks calls (allow r t n now).0 now token (total + k) room
        (Tracks-allow r now token total (length calls + room) t n (rw e' at h)))

max_per_sec-allow :
    (r : RateLimiter) (t : String) (n : ℕ) (now : ℤ)
    → (allow r t n now).0.max_per_sec ≡ r.max_per_sec
unfolding allow
max_per_sec-allow r t n now = refl

max_per_sec-run :
    (calls : List (String × ℕ)) (r : RateLimiter) (now : ℤ)
    → (run r now calls).max_per_sec ≡ r.max_per_sec
unfolding run
max_per_sec-run [] r now = refl
max_per_sec-run ((t, n) ∷ calls) r now =
    max_per_sec-run calls (allow r t n now).0 now ∙ max_per_sec-allow r t n now

verdict-Tracks :
    (r : RateLimiter) (now : ℤ) (token : String) (total n : ℕ)
    → Tracks r now token total 0
    → r.max_per_sec < u32_max
    → (allow r token n now).1 ≡ leb (total + n) r.max_per_sec
unfolding allow
verdict-Tracks r now token total n h small =
    ground (arith, h.second, h.space, h.count, ℤ_eq.beq_iff now r.window.second)

rolled : RateLimiter → ℤ → RateLimiter
rolled r now = record r { window = roll r.window now }

allow-rolled :
    (r : RateLimiter) (t : String) (n : ℕ) (now : ℤ)
    → allow (rolled r now) t n now ≡ allow r t n now
unfolding allow rolled
allow-rolled r t n now = elim (Bool-cases (now == r.window.second)) [
  | inl same ↦ rw (same, roll) (rw (same, roll) refl)
  | inr other ↦ rw (other, roll) (rw (ℤ_eq.beq_iff now now).1 refl)
]

verdict-rolled :
    (calls : List (String × ℕ)) (r : RateLimiter) (now : ℤ) (token : String) (n : ℕ)
    → (allow (run (rolled r now) now calls) token n now).1 ≡ (allow (run r now calls) token n now).1
unfolding run
verdict-rolled [] r now token n = ap (λ p. p.1) (allow-rolled r token n now)
verdict-rolled ((t, k) ∷ calls) r now token n = rw allow-rolled

Tracks-rolled :
    (r : RateLimiter) (now : ℤ) (token : String) (room : ℕ)
    → now ≢ r.window.second
    → room < max_tracked_tokens
    → Tracks (rolled r now) now token 0 room
unfolding rolled roll lookup
Tracks-rolled r now token room fresh few = elim (Bool-cases (now == r.window.second)) [
  | inl same ↦ absurd (fresh ((ℤ_eq.beq_iff now r.window.second).0 same))
  | inr other ↦ rw (other) (record { second = refl; space = omega arith; count = refl })
]

-- A budget for each token and second: after any calls of a second that the limiter has not seen yet,
-- fewer than 50,000, a call is allowed exactly if the events announced for its token in this second,
-- its own included, are at most `max_per_sec`, whatever the other tokens did. The limit is below
-- `u32::MAX`.
pub allow-eq-announced :
    (r : RateLimiter) (now : ℤ) (calls : List (String × ℕ)) (token : String) (n : ℕ)
    → now ≢ r.window.second
    → length calls < max_tracked_tokens
    → r.max_per_sec < u32_max
    → (allow (run r now calls) token n now).1 ≡ leb (announced token calls + n) r.max_per_sec
unfolding rolled
allow-eq-announced r now calls token n fresh few small =
    let start = rolled r now in
    let e : length calls + 0 ≡ length calls = omega arith in
    let tracked =
      run-Tracks calls start now token 0 0
        (rw e (Tracks-rolled r now token (length calls) fresh few)) in
    let limit = max_per_sec-run calls start now in
    sym (verdict-rolled calls r now token n)
    ∙ verdict-Tracks (run start now calls) now token (0 + announced token calls) n tracked
        (rw limit small)
    ∙ ap₂ leb (omega arith) limit
