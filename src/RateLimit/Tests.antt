-- ===== src/RateLimit/Tests.antt =====
-- Tests of `allow`, and the theorems at concrete calls.
use hoglet.Prelude.{
  ℕ, zero, suc, ◌+◌, ◌≤◌, String, ◌≡◌, refl, true, false, List, [], ◌∷◌, arith, leb, nat_eq,
  string_eq, length, list_eq,
}
use hoglet.Prelude.Int.{pos, ℤ_eq}
use Prim.Native.String.{◌++◌}
use hoglet.Prelude.Map.{lookup, insert, has_key}
use hoglet.RateLimit.{RateLimiter, new, allow, max_tracked_tokens}
use hoglet.RateLimit.Laws.{run, announced, Call, calls_of, calls_of-new-bounded, allow-eq-announced}

abbrev limiter : RateLimiter
limiter = record { max_per_sec = 100; window = record { second = pos 0; counts = [] } }

abbrev script : List (String × ℕ)
script = ("phc_a", 60) ∷ ("phc_b", 100) ∷ ("phc_a", 40) ∷ []

over_ceiling : (allow (run limiter (pos 1000) script) "phc_a" 1 (pos 1000)).1 ≡ false
unfolding run allow lookup insert has_key
over_ceiling = refl

next_second : (allow (run limiter (pos 1000) script) "phc_a" 100 (pos 1001)).1 ≡ true
unfolding run allow lookup insert has_key
next_second = refl

abbrev name : ℕ → String
name zero = "phc_"
name (suc n) = "a" ++ name n

-- As many tokens in one second.
abbrev flood : ℕ → List Call
flood zero = []
flood (suc n) = record { token = name n; events = 1; at_secs = pos 1000 } ∷ flood n

flood_three : length (calls_of (new 100) (flood 3)).window.counts ≡ 3
unfolding calls_of new allow lookup insert has_key
flood_three = refl

calls_of-new-bounded_example :
    length (calls_of (new 100) (flood 60_000)).window.counts ≤ max_tracked_tokens
calls_of-new-bounded_example = calls_of-new-bounded 100 (flood 60_000)

allow-eq-announced_example :
    (allow (run limiter (pos 1000) script) "phc_a" 1 (pos 1000)).1
    ≡ leb (announced "phc_a" script + 1) 100
allow-eq-announced_example =
    allow-eq-announced limiter (pos 1000) script "phc_a" 1 (λ p. ground arith) (omega arith)
      (omega arith)
