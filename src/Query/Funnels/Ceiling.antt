-- ===== src/Query/Funnels/Ceiling.antt =====
-- How deep an attempt can go, against the depth at which the search for a better one stops.
use hoglet.Prelude.Int.{◌≤ℤ◌}
use mathlib.Core.Path.{ap, ◌∙◌}
use hoglet.Query.Funnels.{
  Event, has_bit, ℤ, in_window, deepest, extend, extend_all, chain_step, no_starts, chain,
  positions_from, attempt_from, ordered_positions, ordered_max_depth,
}
use hoglet.Prelude.{
  ℕ, zero, suc, ◌+◌, ◌≤◌, ◌<◌, ◌≡◌, refl, inl, inr, true, not, ◌&&◌, ◌||◌, Option, none, some, List,
  [], ◌∷◌, arith, if◌then◌else◌, Bool-cases, ◌==◌, nat_eq, string_eq, length, drop, All, list_eq,
}

-- Every event is as late as the ones before it.
abbrev pub IsSorted : List Event → Type 0
IsSorted [] = Unit
IsSorted (e ∷ es) = All (λ f. e.ts ≤ℤ f.ts) es × IsSorted es

-- A start that is there, and no earlier than `start`.
abbrev IsAfter : ℤ → Option ℤ → Type 0
IsAfter start none = ⊥
IsAfter start (some s) = start ≤ℤ s

-- The first `depth` steps have been reached from `start` or from later.
abbrev HasReached : ℤ → ℕ → List (Option ℤ) → Type 0
HasReached start zero cs = Unit
HasReached start (suc depth) [] = ⊥
HasReached start (suc depth) (c ∷ cs) = IsAfter start c × HasReached start depth cs

HasReached-deepest :
    (start : ℤ) (depth : ℕ) (cs : List (Option ℤ)) → HasReached start depth cs → depth ≤ deepest cs
HasReached-deepest start zero cs h = omega arith
HasReached-deepest start (suc depth) [] h = absurd h
HasReached-deepest start (suc depth) (none ∷ cs) (h, hs) = absurd h
HasReached-deepest start (suc depth) (some s ∷ cs) (h, hs) =
    let rest = HasReached-deepest start depth cs hs in ground arith

HasReached-length :
    (start : ℤ) (depth : ℕ) (cs : List (Option ℤ)) → HasReached start depth cs → depth ≤ length cs
HasReached-length start zero cs h = omega arith
HasReached-length start (suc depth) [] h = absurd h
HasReached-length start (suc depth) (c ∷ cs) (h, hs) =
    omega (arith, HasReached-length start depth cs hs)

-- An event that is inside the window of a start is inside the window of a later one.
in_window_mono :
    (window : ℕ) (start later ts : ℤ)
    → start ≤ℤ later
    → in_window window start ts ≡ true
    → in_window window later ts ≡ true
unfolding in_window
in_window_mono window start later ts h e = ground arith

module _ (window : ℕ) (start : ℤ) (e : Event) where
  extend-IsAfter :
      (step : ℕ) (before old : Option ℤ)
      → IsAfter start before
      → IsAfter start old
      → IsAfter start (extend window e step before old)
  unfolding extend
  extend-IsAfter step none old h k = k
  extend-IsAfter step (some s) old h k =
      elim (Bool-cases (has_bit e.mask step && in_window window s e.ts)) [
        | inl taken ↦ rw (extend, taken) h
        | inr left ↦ rw (extend, left) k
      ]

  extend-reached :
      (step : ℕ) (before old : Option ℤ)
      → IsAfter start before
      → has_bit e.mask step ≡ true
      → in_window window start e.ts ≡ true
      → IsAfter start (extend window e step before old)
  unfolding extend
  extend-reached step none old h bit inside = absurd h
  extend-reached step (some s) old h bit inside =
      rw (extend, bit, in_window_mono window start s e.ts h inside) h

  bit_at : {a b : ℕ} → a ≡ b → has_bit e.mask a ≡ true → has_bit e.mask b ≡ true
  bit_at same bit = rw (← same) bit

  extend_all-HasReached :
      (step depth : ℕ) (before : Option ℤ) (cs : List (Option ℤ))
      → IsAfter start before
      → HasReached start depth cs
      → HasReached start depth (extend_all window e step before cs)
  extend_all-HasReached step zero before cs h hs = tt
  extend_all-HasReached step (suc depth) before [] h hs = absurd hs
  extend_all-HasReached step (suc depth) before (c ∷ cs) h (k, ks) =
      (extend-IsAfter step before c h k, extend_all-HasReached (step + 1) depth c cs k ks)

  extend_all-reached :
      (step depth : ℕ) (before : Option ℤ) (cs : List (Option ℤ))
      → IsAfter start before
      → HasReached start depth cs
      → depth < length cs
      → has_bit e.mask (step + depth) ≡ true
      → in_window window start e.ts ≡ true
      → HasReached start (suc depth) (extend_all window e step before cs)
  extend_all-reached step depth before [] h hs space bit inside = absurd (omega arith)
  extend_all-reached step zero before (c ∷ cs) h hs space bit inside =
      (extend-reached step before c h (bit_at (omega arith) bit) inside, tt)
  extend_all-reached step (suc depth) before (c ∷ cs) h (k, ks) space bit inside = (
    extend-IsAfter step before c h k,
    extend_all-reached (step + 1) depth c cs k ks (omega arith) (bit_at (omega arith) bit) inside,
  )

  first-IsAfter :
      (c : Option ℤ)
      → start ≤ℤ e.ts
      → IsAfter start c
      → IsAfter start (if has_bit e.mask 0 then some e.ts else c)
  first-IsAfter c later h = elim (Bool-cases (has_bit e.mask 0)) [
    | inl taken ↦ rw taken later
    | inr left ↦ rw left h
  ]

  chain_step-HasReached :
      (depth : ℕ) (cs : List (Option ℤ))
      → start ≤ℤ e.ts
      → HasReached start (suc depth) cs
      → HasReached start (suc depth) (chain_step window e cs)
  unfolding chain_step
  chain_step-HasReached depth [] later h = absurd h
  chain_step-HasReached depth (c ∷ cs) later (h, hs) =
      (first-IsAfter c later h, extend_all-HasReached 1 depth c cs h hs)

  chain_step-reached :
      (depth : ℕ) (cs : List (Option ℤ))
      → start ≤ℤ e.ts
      → HasReached start (suc depth) cs
      → suc depth < length cs
      → has_bit e.mask (suc depth) ≡ true
      → in_window window start e.ts ≡ true
      → HasReached start (suc (suc depth)) (chain_step window e cs)
  unfolding chain_step
  chain_step-reached depth [] later h space bit inside = absurd h
  chain_step-reached depth (c ∷ cs) later (h, hs) space bit inside = (
    first-IsAfter c later h,
    extend_all-reached 1 depth c cs h hs (omega arith) (bit_at (omega arith) bit) inside,
  )

length-extend_all :
    (window : ℕ) (e : Event) (step : ℕ) (before : Option ℤ) (cs : List (Option ℤ))
    → length (extend_all window e step before cs) ≡ length cs
length-extend_all window e step before [] = refl
length-extend_all window e step before (c ∷ cs) =
    ap suc (length-extend_all window e (step + 1) c cs)

length-chain_step :
    (window : ℕ) (e : Event) (cs : List (Option ℤ)) → length (chain_step window e cs) ≡ length cs
unfolding chain_step
length-chain_step window e [] = refl
length-chain_step window e (c ∷ cs) = ap suc (length-extend_all window e 1 c cs)

length-no_starts : (n : ℕ) → length (no_starts n) ≡ n
length-no_starts zero = refl
length-no_starts (suc n) = ap suc (length-no_starts n)

module _ (window : ℕ) (start : ℤ) where
  -- What has been reached stays so.
  chain-HasReached :
      (depth : ℕ) (es : List Event) (cs : List (Option ℤ))
      → All (λ f. start ≤ℤ f.ts) es
      → HasReached start (suc depth) cs
      → HasReached start (suc depth) (chain window es cs)
  chain-HasReached depth [] cs later h = h
  chain-HasReached depth (e ∷ es) cs (l, ls) h =
      chain-HasReached depth es (chain_step window e cs) ls
        (chain_step-HasReached window start e depth cs l h)

  -- The rest of an attempt that has done `suc depth` steps is no deeper than the chain.
  positions_from-le :
      (steps depth index : ℕ) (es : List Event) (cs : List (Option ℤ))
      → All (λ f. start ≤ℤ f.ts) es
      → HasReached start (suc depth) cs
      → length cs ≡ steps
      → suc depth + length (positions_from steps window start (suc depth) index es)
        ≤ deepest (chain window es cs)
  positions_from-le steps depth index [] cs later h size =
      let bound = HasReached-deepest start (suc depth) cs h in omega arith
  positions_from-le steps depth index (e ∷ es) cs (l, ls) h size =
      let bound =
        HasReached-deepest start (suc depth) (chain window (e ∷ es) cs)
          (chain-HasReached depth (e ∷ es) cs (l, ls) h) in
      elim (Bool-cases ((suc depth == steps) || not (in_window window start e.ts))) [
        | inl stop ↦ rw (length, stop) (omega arith)
        | inr going ↦
            let kept = chain_step-HasReached window start e depth cs l h in
            let sized = length-chain_step window e cs ∙ size in
            elim (Bool-cases (has_bit e.mask (suc depth))) [
              | inl hit ↦
                  let space : suc depth < length cs =
                    ground (arith, HasReached-length start (suc depth) cs h) in
                  let inside : in_window window start e.ts ≡ true = ground arith in
                  let deeper = chain_step-reached window start e depth cs l h space hit inside in
                  rw (length, going, hit)
                    (omega (
                      arith,
                      positions_from-le steps (suc depth) (suc index) es (chain_step window e cs) ls
                          deeper sized,
                    ))
              | inr miss ↦
                  rw (length, going, miss)
                    (positions_from-le steps depth (suc index) es (chain_step window e cs) ls kept
                      sized)
            ]
      ]

-- The first of the events is one of the first step.
abbrev pub StartsFunnel : List Event → Type 0
StartsFunnel [] = Unit
StartsFunnel (e ∷ es) = has_bit e.mask 0 ≡ true

chain_step-first :
    (window : ℕ) (e : Event) (cs : List (Option ℤ))
    → 1 ≤ length cs
    → has_bit e.mask 0 ≡ true
    → HasReached e.ts 1 (chain_step window e cs)
unfolding chain_step
chain_step-first window e [] some_step bit = absurd (omega arith)
chain_step-first window e (c ∷ cs) some_step bit = rw bit (omega arith, tt)

attempt_from-le :
    (steps window anchor index : ℕ) (events : List Event) (cs : List (Option ℤ))
    → 1 ≤ steps
    → length cs ≡ steps
    → IsSorted events
    → StartsFunnel (drop anchor events)
    → length (attempt_from steps window index (drop anchor events))
      ≤ deepest (chain window events cs)
attempt_from-le steps window zero index [] cs some_step size sorted first = omega arith
attempt_from-le steps window zero index (e ∷ es) cs some_step size (later, sorted) first =
    let reached = chain_step-first window e cs (omega arith) first in
    let sized = length-chain_step window e cs ∙ size in
    omega (
      arith,
      positions_from-le window e.ts steps 0 (suc index) es (chain_step window e cs) later reached
          sized,
    )
attempt_from-le steps window (suc anchor) index [] cs some_step size sorted first = omega arith
attempt_from-le steps window (suc anchor) index (e ∷ es) cs some_step size (later, sorted) first =
    attempt_from-le steps window anchor index es (chain_step window e cs) some_step
      (length-chain_step window e cs ∙ size) sorted first

-- In events that are sorted by time, no attempt that begins with an event of the first step is deeper than
-- `ordered_max_depth`: an attempt that is as deep may end the search.
pub ordered_positions-le-ordered_max_depth :
    (events : List Event) (anchor steps window : ℕ)
    → 1 ≤ steps
    → IsSorted events
    → StartsFunnel (drop anchor events)
    → length (ordered_positions events anchor steps window) ≤ ordered_max_depth events steps window
unfolding ordered_positions ordered_max_depth
ordered_positions-le-ordered_max_depth events anchor steps window some_step sorted first =
    attempt_from-le steps window anchor anchor events (no_starts steps) some_step
      (length-no_starts steps) sorted first
