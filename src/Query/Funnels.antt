-- ===== src/Query/Funnels.antt =====
-- src/query/funnels.rs: the attempts of a person in a funnel whose steps are taken in order. A position is an
-- index of the events of that person, and the window is not negative.
-- Steps and exclusions have their bits in a u64, since a query has at most 20 steps.
pub mod Ceiling
pub mod Early
pub mod Search
mod Tests
use hoglet.Prelude.Int.{ℤ, pos_part, neg_part}
use hoglet.Prelude.{
  ℕ, zero, suc, ◌+◌, ◌/◌, ◌%◌, ◌^◌, Bool, true, false, not, ◌&&◌, ◌||◌, Option, none, some, List,
  [], ◌∷◌, leb, if◌then◌else◌, ◌==◌, nat_eq, string_eq, drop, list_eq,
}

pub record Event : Type 0 where
  pub ts : ℤ
  pub mask : ℕ

-- `mask & (1 << bit) != 0`.
unfoldable pub has_bit : ℕ → ℕ → Bool
has_bit mask bit = (mask / 2 ^ bit) % 2 == 1

-- `ts - start <= window`.
unfoldable pub in_window : ℕ → ℤ → ℤ → Bool
in_window window start ts =
    leb (pos_part ts + neg_part start) (pos_part start + neg_part ts + window)

-- The events behind an anchor at `start`, of which the first has position `index`, with `reached` steps done.
abbrev pub positions_from : ℕ → ℕ → ℤ → ℕ → ℕ → List Event → List ℕ
positions_from steps window start reached index [] = []
positions_from steps window start reached index (e ∷ es) =
    elim ((reached == steps) || not (in_window window start e.ts)) [
      | true ↦ []
      | false ↦ elim (has_bit e.mask reached) [
        | true ↦ index ∷ positions_from steps window start (suc reached) (suc index) es
        | false ↦ positions_from steps window start reached (suc index) es
      ]
    ]

-- The attempt that the first of these events, at position `index`, begins.
abbrev pub attempt_from : ℕ → ℕ → ℕ → List Event → List ℕ
attempt_from steps window index [] = []
attempt_from steps window index (e ∷ es) = index ∷ positions_from steps window e.ts 1 (suc index) es

unfoldable pub ordered_positions : List Event → ℕ → ℕ → ℕ → List ℕ
ordered_positions events anchor steps window = attempt_from steps window anchor (drop anchor events)

-- The latest start that has reached a step, from that of the step before.
unfoldable pub extend : ℕ → Event → ℕ → Option ℤ → Option ℤ → Option ℤ
extend window e step none old = old
extend window e step (some start) old =
    if has_bit e.mask step && in_window window start e.ts then some start else old

-- The later steps of the chain: each takes the start of the step before as it was.
abbrev pub extend_all : ℕ → Event → ℕ → Option ℤ → List (Option ℤ) → List (Option ℤ)
extend_all window e step before [] = []
extend_all window e step before (old ∷ olds) =
    extend window e step before old ∷ extend_all window e (step + 1) old olds

unfoldable pub chain_step : ℕ → Event → List (Option ℤ) → List (Option ℤ)
unfolding extend
chain_step window e [] = []
chain_step window e (first ∷ olds) =
    (if has_bit e.mask 0 then some e.ts else first) ∷ extend_all window e 1 first olds

abbrev pub chain : ℕ → List Event → List (Option ℤ) → List (Option ℤ)
chain window [] starts = starts
chain window (e ∷ es) starts = chain window es (chain_step window e starts)

abbrev pub no_starts : ℕ → List (Option ℤ)
no_starts zero = []
no_starts (suc n) = none ∷ no_starts n

-- `rposition(Option::is_some)`, and one more.
abbrev pub deepest : List (Option ℤ) → ℕ
deepest [] = 0
deepest (c ∷ cs) =
    let rest = deepest cs in if leb 1 rest then rest + 1 else (elim c [ none ↦ 0 | some _ ↦ 1 ])

unfoldable pub ordered_max_depth : List Event → ℕ → ℕ → ℕ
unfolding chain_step
ordered_max_depth events steps window = deepest (chain window events (no_starts steps))
