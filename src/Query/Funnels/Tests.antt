-- ===== src/Query/Funnels/Tests.antt =====
-- Attempts of small funnels.
use hoglet.Query.Funnels.{Event, in_window, has_bit, ordered_positions, ordered_max_depth, has_bit}
use hoglet.Query.Funnels.Early.{best_attempt-eq, best_of}
use hoglet.Query.Funnels.Search.{Exclusion, Attempt, ordered, strict, unordered, best_attempt}
use hoglet.Prelude.Int.{pos, ℤ}
use hoglet.Prelude.{ℕ, ◌^◌, ◌≡◌, refl, Option, none, some, List, [], ◌∷◌, arith}

abbrev event_at : ℕ → ℕ → Event
event_at ts mask = record { ts = pos ts; mask = mask }

abbrev converts_late : List Event
converts_late = event_at 0 1 ∷ event_at 100 1 ∷ event_at 105 2 ∷ []

too_late_test : ordered_positions converts_late 0 2 10 ≡ 0 ∷ []
unfolding ordered_positions in_window has_bit
too_late_test = refl

converts_test : ordered_positions converts_late 1 2 10 ≡ 1 ∷ 2 ∷ []
unfolding ordered_positions in_window has_bit
converts_test = refl

depth_test : ordered_max_depth converts_late 2 10 ≡ 2
unfolding ordered_max_depth in_window has_bit
depth_test = refl

one_event_test : ordered_max_depth (event_at 0 3 ∷ []) 2 10 ≡ 1
unfolding ordered_max_depth in_window has_bit
one_event_test = refl

abbrev attempt : ℕ → List ℤ → Option Attempt
attempt anchor times = some (record { anchor = anchor; times = times })

late_test : best_attempt converts_late ordered 2 10 [] ≡ attempt 1 (pos 100 ∷ pos 105 ∷ [])
unfolding best_attempt ordered_positions ordered_max_depth in_window has_bit
late_test = refl

abbrev with_gap : List Event
with_gap = event_at 0 1 ∷ event_at 1 0 ∷ event_at 2 2 ∷ []

strict_test : best_attempt with_gap strict 2 10 [] ≡ attempt 0 (pos 0 ∷ [])
unfolding best_attempt in_window has_bit
strict_test = refl

abbrev refused : Exclusion
refused = record { bit = 32; from_step = 0; to_step = 1 }

abbrev spoilt_once : List Event
spoilt_once = event_at 0 1 ∷ event_at 1 (2 ^ 32) ∷ event_at 2 2 ∷ event_at 10 1 ∷ event_at 11 2 ∷ []

exclusion_test :
    best_attempt spoilt_once ordered 2 100 (refused ∷ []) ≡ attempt 3 (pos 10 ∷ pos 11 ∷ [])
unfolding best_attempt ordered_positions ordered_max_depth in_window has_bit
exclusion_test = refl

spoilt_test :
    best_attempt (event_at 0 1 ∷ event_at 1 (2 ^ 32) ∷ []) ordered 2 100 (refused ∷ []) ≡ none
unfolding best_attempt ordered_positions ordered_max_depth in_window has_bit
spoilt_test = refl

abbrev mixed : List Event
mixed = event_at 0 4 ∷ event_at 5 1 ∷ event_at 7 4 ∷ event_at 50 2 ∷ []

unordered_test : best_attempt mixed unordered 3 10 [] ≡ attempt 0 (pos 0 ∷ pos 5 ∷ [])
unfolding best_attempt in_window has_bit
unordered_test = refl

unordered_all_test : best_attempt mixed unordered 3 100 [] ≡ attempt 0 (pos 0 ∷ pos 5 ∷ pos 50 ∷ [])
unfolding best_attempt in_window has_bit
unordered_all_test = refl

best_attempt-eq_example :
    best_attempt converts_late ordered 2 10 (refused ∷ [])
    ≡ best_of ordered converts_late 2 10 (refused ∷ []) 0 converts_late none
best_attempt-eq_example =
    best_attempt-eq converts_late ordered 2 10 (refused ∷ []) (omega arith)
      ((omega arith, (omega arith, tt)), ((omega arith, tt), (tt, tt)))
