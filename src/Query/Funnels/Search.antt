-- ===== src/Query/Funnels/Search.antt =====
-- src/query/funnels.rs: the other orders, exclusions, and the search for the best attempt. A position that
-- an attempt names is one of an event, so that the time of `pos 0` for one that is not is never read.
use hoglet.Query.Funnels.{Event, has_bit, in_window, ordered_max_depth, ordered_positions}
use hoglet.Prelude.Int.{ℤ, pos}
use hoglet.Prelude.{
  ℕ, zero, suc, ◌-◌, max, Bool, true, false, not, ◌&&◌, ◌||◌, Option, none, some, List, [], ◌∷◌,
  ◌++◌, map, ltb, leb, if◌then◌else◌, ◌==◌, nat_eq, string_eq, length, get_elem?, take, drop, any,
  list_eq,
}

pub data FunnelOrder : Type 0 where
  ordered strict unordered : FunnelOrder

-- `bit` is the place of the one bit that is set in the source's `bit`.
pub record Exclusion : Type 0 where
  pub bit : ℕ
  pub from_step : ℕ
  pub to_step : ℕ

pub record Attempt : Type 0 where
  pub anchor : ℕ
  pub times : List ℤ

-- The events behind a strict anchor: the first that is not the next step ends it.
abbrev pub strict_from : ℕ → ℕ → ℤ → ℕ → ℕ → List Event → List ℕ
strict_from steps window start reached index [] = []
strict_from steps window start reached index (e ∷ es) =
    let rest = strict_from steps window start (suc reached) (suc index) es in
    if ltb reached steps && in_window window start e.ts && has_bit e.mask reached
    then index ∷ rest
    else []

abbrev pub strict_attempt : ℕ → ℕ → ℕ → List Event → List ℕ
strict_attempt steps window index [] = []
strict_attempt steps window index (e ∷ es) = index ∷ strict_from steps window e.ts 1 (suc index) es

unfoldable pub strict_positions : List Event → ℕ → ℕ → ℕ → List ℕ
strict_positions events anchor steps window =
    strict_attempt steps window anchor (drop anchor events)

-- The step bits of a mask, from `step` on.
abbrev pub bits_from : ℕ → ℕ → ℕ → List Bool
bits_from step zero mask = []
bits_from step (suc n) mask = has_bit mask step ∷ bits_from (suc step) n mask

abbrev pub count_ones : List Bool → ℕ
count_ones [] = 0
count_ones (b ∷ bs) = let rest = count_ones bs in if b then suc rest else rest

-- `event.mask & step_bits & !covered`.
abbrev pub new_bits : List Bool → List Bool → List Bool
new_bits (b ∷ bs) (c ∷ cs) = (b && not c) ∷ new_bits bs cs
new_bits _ _ = []

-- `covered | new`.
abbrev pub or_bits : List Bool → List Bool → List Bool
or_bits (c ∷ cs) (b ∷ bs) = (c || b) ∷ or_bits cs bs
or_bits cs _ = cs

abbrev pub repeat {ℓ} : {A : Type ℓ} → ℕ → A → List A
repeat zero x = []
repeat (suc n) x = x ∷ repeat n x

abbrev pub unordered_from : ℕ → ℕ → ℤ → List Bool → List Event → List ℤ
unordered_from steps window start covered [] = []
unordered_from steps window start covered (e ∷ es) =
    let new = new_bits (bits_from 0 steps e.mask) covered in
    let rest = unordered_from steps window start (or_bits covered new) es in
    if (count_ones covered == steps) || not (in_window window start e.ts)
    then []
    else repeat (count_ones new) e.ts ++ rest

abbrev pub unordered_attempt : ℕ → ℕ → List Event → List ℤ
unordered_attempt steps window [] = []
unordered_attempt steps window (e ∷ es) =
    let covered = bits_from 0 steps e.mask in
    repeat (count_ones covered) e.ts ++ unordered_from steps window e.ts covered es

unfoldable pub unordered_times : List Event → ℕ → ℕ → ℕ → List ℤ
unordered_times events anchor steps window = unordered_attempt steps window (drop anchor events)

abbrev pub ts_of : Option Event → ℤ
ts_of none = pos 0
ts_of (some e) = e.ts

abbrev pub ts_at : List Event → ℕ → ℤ
ts_at events index = ts_of (get_elem? events index)

-- The first of the events, of which the first has position `index`, that is past the window.
abbrev pub past_window : ℕ → ℤ → ℕ → List Event → ℕ
past_window window start index [] = index
past_window window start index (e ∷ es) =
    let rest = past_window window start (suc index) es in
    if in_window window start e.ts then rest else index

unfoldable pub end_of : List Event → List ℕ → ℕ → ℤ → ℕ → Exclusion → ℕ
end_of events positions window start from exclusion = elim (get_elem? positions exclusion.to_step) [
  | some to ↦ to
  | none ↦ past_window window start (suc from) (drop (suc from) events)
]

unfoldable pub excludes : List Event → List ℕ → ℕ → ℤ → Exclusion → Bool
unfolding end_of
excludes events positions window start exclusion = elim (get_elem? positions exclusion.from_step) [
  | none ↦ false
  | some from ↦
      let end = max (end_of events positions window start from exclusion) (suc from) in
      any (λ (e : Event). has_bit e.mask exclusion.bit)
        (take (end - suc from) (drop (suc from) events))
]

unfoldable pub tainted : List Event → List ℕ → ℕ → List Exclusion → Bool
unfolding excludes
tainted events [] window exclusions = false
tainted events (first ∷ rest) window exclusions =
    any (excludes events (first ∷ rest) window (ts_at events first)) exclusions

unfoldable pub is_anchor : FunnelOrder → ℕ → ℕ → Bool
is_anchor unordered steps mask = leb 1 (count_ones (bits_from 0 steps mask))
is_anchor ordered steps mask = has_bit mask 0
is_anchor strict steps mask = has_bit mask 0

unfoldable pub ceiling : FunnelOrder → List Event → ℕ → ℕ → ℕ
ceiling ordered events steps window = ordered_max_depth events steps window
ceiling strict events steps window = steps
ceiling unordered events steps window = steps

-- The times at these positions, unless an exclusion spoils the attempt.
unfoldable pub untainted : List Event → ℕ → List Exclusion → List ℕ → Option (List ℤ)
unfolding tainted
untainted events window exclusions positions =
    if tainted events positions window exclusions then none else some (map (ts_at events) positions)

unfoldable pub attempt_times :
    FunnelOrder → List Event → ℕ → ℕ → List Exclusion → ℕ → Option (List ℤ)
unfolding untainted unordered_times strict_positions
attempt_times unordered events steps window exclusions anchor =
    some (unordered_times events anchor steps window)
attempt_times ordered events steps window exclusions anchor =
    untainted events window exclusions (ordered_positions events anchor steps window)
attempt_times strict events steps window exclusions anchor =
    untainted events window exclusions (strict_positions events anchor steps window)

abbrev pub depth_of : Option Attempt → ℕ
depth_of none = 0
depth_of (some a) = length a.times

-- The attempt that is kept: a deeper one, or the first.
unfoldable pub better : Option Attempt → ℕ → List ℤ → Option Attempt
better none anchor times = some (record { anchor = anchor; times = times })
better (some best) anchor times =
    if ltb (length best.times) (length times)
    then some (record { anchor = anchor; times = times })
    else some best

-- The rounds of the loop over the anchors: these events are the ones from `anchor` on.
module _ (order : FunnelOrder) (events : List Event) (steps window : ℕ)
    (exclusions : List Exclusion) where
  abbrev pub best_from : ℕ → List Event → Option Attempt → Option Attempt
  best_from anchor [] best = best
  best_from anchor (e ∷ es) best = elim (is_anchor order steps e.mask) [
    | false ↦ best_from (suc anchor) es best
    | true ↦ elim (attempt_times order events steps window exclusions anchor) [
      | none ↦ best_from (suc anchor) es best
      | some times ↦ elim (leb (ceiling order events steps window) (length times)) [
        | true ↦ better best anchor times
        | false ↦ best_from (suc anchor) es (better best anchor times)
      ]
    ]
  ]

unfoldable pub best_attempt : List Event → FunnelOrder → ℕ → ℕ → List Exclusion → Option Attempt
unfolding is_anchor ceiling attempt_times better
best_attempt events order steps window exclusions =
    best_from order events steps window exclusions 0 events none
