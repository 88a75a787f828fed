-- ===== src/Query/Funnels/Early.antt =====
-- That the search for the best attempt may stop early.
use hoglet.Query.Funnels.Ceiling.{IsSorted, StartsFunnel, ordered_positions-le-ordered_max_depth}
use hoglet.Query.Funnels.Search.{
  FunnelOrder, ordered, strict, unordered, Exclusion, Attempt, is_anchor, ceiling, attempt_times,
  better, best_from, best_attempt, strict_from, strict_positions, unordered_times, untainted,
  count_ones, or_bits, new_bits, ts_at, bits_from, repeat, unordered_from, strict_attempt,
  unordered_attempt,
}
use hoglet.Query.Funnels.{Event, ℤ, in_window, ordered_positions}
use hoglet.Prelude.{
  ℕ, zero, suc, ◌+◌, ◌≤◌, ◌≡◌, refl, sym, ap, ◌∙◌, inl, inr, Bool, true, false, not, ◌||◌, Option,
  none, some, List, [], ◌∷◌, ◌++◌, map, arith, ltb, leb, Bool-cases, Option-cases, ◌==◌, nat_eq,
  string_eq, length, drop, list_eq,
}

-- The search through all anchors.
module _ (order : FunnelOrder) (events : List Event) (steps window : ℕ)
    (exclusions : List Exclusion) where
  abbrev pub best_of : ℕ → List Event → Option Attempt → Option Attempt
  best_of anchor [] best = best
  best_of anchor (e ∷ es) best = elim (is_anchor order steps e.mask) [
    | false ↦ best_of (suc anchor) es best
    | true ↦ elim (attempt_times order events steps window exclusions anchor) [
      | none ↦ best_of (suc anchor) es best
      | some times ↦ best_of (suc anchor) es (better best anchor times)
    ]
  ]

length-map_ts :
    (events : List Event) (positions : List ℕ)
    → length (map (ts_at events) positions) ≡ length positions
length-map_ts events [] = refl
length-map_ts events (p ∷ ps) = ap suc (length-map_ts events ps)

-- How deep an attempt is that an exclusion may spoil.
length-untainted :
    (events : List Event) (window : ℕ) (exclusions : List Exclusion) (positions : List ℕ)
    (times : List ℤ)
    → untainted events window exclusions positions ≡ some times
    → length times ≡ length positions
unfolding untainted
length-untainted events window exclusions positions times h =
    ground (arith, length-map_ts events positions)

strict_from-le :
    (steps window : ℕ) (start : ℤ) (reached index : ℕ) (es : List Event)
    → reached ≤ steps
    → reached + length (strict_from steps window start reached index es) ≤ steps
strict_from-le steps window start reached index [] h = omega arith
strict_from-le steps window start reached index (e ∷ es) h =
    ground (arith, strict_from-le steps window start (suc reached) (suc index) es)

count_ones-or :
    (covered bits : List Bool)
    → length bits ≡ length covered
    → count_ones (or_bits covered (new_bits bits covered))
      ≡ count_ones covered + count_ones (new_bits bits covered)
count_ones-or [] [] h = refl
count_ones-or [] (b ∷ bs) h = refl
count_ones-or (c ∷ cs) [] h = absurd (omega arith)
count_ones-or (true ∷ cs) (true ∷ bs) h = omega (arith, count_ones-or cs bs (omega arith))
count_ones-or (true ∷ cs) (false ∷ bs) h = omega (arith, count_ones-or cs bs (omega arith))
count_ones-or (false ∷ cs) (true ∷ bs) h = omega (arith, count_ones-or cs bs (omega arith))
count_ones-or (false ∷ cs) (false ∷ bs) h = omega (arith, count_ones-or cs bs (omega arith))

count_ones-le : (bits : List Bool) → count_ones bits ≤ length bits
count_ones-le [] = omega arith
count_ones-le (b ∷ bs) = ground (arith, count_ones-le bs)

length-bits_from : (step n mask : ℕ) → length (bits_from step n mask) ≡ n
length-bits_from step zero mask = refl
length-bits_from step (suc n) mask = ap suc (length-bits_from (suc step) n mask)

length-or_bits : (covered bits : List Bool) → length (or_bits covered bits) ≡ length covered
length-or_bits [] [] = refl
length-or_bits [] (b ∷ bs) = refl
length-or_bits (c ∷ cs) [] = refl
length-or_bits (c ∷ cs) (b ∷ bs) = ap suc (length-or_bits cs bs)

length-repeat : (n : ℕ) (t : ℤ) (rest : List ℤ) → length (repeat n t ++ rest) ≡ n + length rest
length-repeat zero t rest = omega arith
length-repeat (suc n) t rest = omega (arith, length-repeat n t rest)

unordered_from-le :
    (steps window : ℕ) (start : ℤ) (covered : List Bool) (es : List Event)
    → length covered ≡ steps
    → count_ones covered + length (unordered_from steps window start covered es) ≤ steps
unordered_from-le steps window start covered [] size = omega (arith, count_ones-le covered)
unordered_from-le steps window start covered (e ∷ es) size =
    let bits = bits_from 0 steps e.mask in
    let new = new_bits bits covered in
    let sized = length-or_bits covered new in
    let before = count_ones-le covered in
    let sum = count_ones-or covered bits (length-bits_from 0 steps e.mask ∙ sym size) in
    let later = unordered_from-le steps window start (or_bits covered new) es (sized ∙ size) in
    let joined =
      length-repeat (count_ones new) e.ts
        (unordered_from steps window start (or_bits covered new) es) in
    elim (Bool-cases ((count_ones covered == steps) || not (in_window window start e.ts))) [
      | inl stop ↦ rw (length, stop) (omega arith)
      | inr going ↦ rw (length, going) (omega arith)
    ]

-- An attempt that a search tries is no deeper than the depth at which the search stops.
attempt_times-le :
    (order : FunnelOrder) (events : List Event) (steps window : ℕ) (exclusions : List Exclusion)
    (anchor : ℕ) (e : Event) (es : List Event) (times : List ℤ)
    → 1 ≤ steps
    → IsSorted events
    → drop anchor events ≡ e ∷ es
    → is_anchor order steps e.mask ≡ true
    → attempt_times order events steps window exclusions anchor ≡ some times
    → length times ≤ ceiling order events steps window
unfolding attempt_times is_anchor ceiling strict_positions unordered_times
attempt_times-le ordered events steps window exclusions anchor e es times some_step sorted here
      first h =
    let starts : StartsFunnel (drop anchor events) = rw here first in
    omega (
      arith,
      length-untainted events window exclusions (ordered_positions events anchor steps window) times
          h,
      ordered_positions-le-ordered_max_depth events anchor steps window some_step sorted starts,
    )
attempt_times-le strict events steps window exclusions anchor e es times some_step sorted here first
      h =
    let same =
      length-untainted events window exclusions
        (strict_attempt steps window anchor (drop anchor events)) times h in
    let bound = strict_from-le steps window e.ts 1 (suc anchor) es some_step in
    let sized : length (strict_attempt steps window anchor (drop anchor events)) ≤ steps =
      rw here (omega arith) in
    omega arith
attempt_times-le unordered events steps window exclusions anchor e es times some_step sorted here
      first h =
    let bits = bits_from 0 steps e.mask in
    let bound = unordered_from-le steps window e.ts bits es (length-bits_from 0 steps e.mask) in
    let joined = length-repeat (count_ones bits) e.ts (unordered_from steps window e.ts bits es) in
    let sized : length (unordered_attempt steps window (drop anchor events)) ≤ steps =
      rw here (omega arith) in
    let same : unordered_attempt steps window (drop anchor events) ≡ times = ground arith in
    rw (← same) sized

drop-suc :
    (n : ℕ) (events : List Event) (e : Event) (es : List Event)
    → drop n events ≡ e ∷ es
    → drop (suc n) events ≡ es
drop-suc zero [] e es h = absurd (cc)
drop-suc zero (x ∷ xs) e es h = ground arith
drop-suc (suc n) [] e es h = absurd (cc)
drop-suc (suc n) (x ∷ xs) e es h = drop-suc n xs e es h

-- An attempt that is as deep as any.
abbrev IsDeepest : ℕ → Option Attempt → Type 0
IsDeepest limit none = ⊥
IsDeepest limit (some a) = limit ≤ length a.times

better-keeps :
    (limit : ℕ) (best : Option Attempt) (anchor : ℕ) (times : List ℤ)
    → IsDeepest limit best
    → length times ≤ limit
    → better best anchor times ≡ best
unfolding better
better-keeps limit none anchor times h k = absurd h
better-keeps limit (some a) anchor times h k =
    let kept : ltb (length a.times) (length times) ≡ false = ground arith in rw kept refl

better-IsDeepest :
    (limit : ℕ) (best : Option Attempt) (anchor : ℕ) (times : List ℤ)
    → limit ≤ length times
    → IsDeepest limit (better best anchor times)
unfolding better
better-IsDeepest limit none anchor times h = h
better-IsDeepest limit (some a) anchor times h =
    elim (Bool-cases (ltb (length a.times) (length times))) [
      | inl deeper ↦ rw deeper h
      | inr other ↦ rw other (ground arith)
    ]

module _ (order : FunnelOrder) (events : List Event) (steps window : ℕ)
    (exclusions : List Exclusion) (some_step : 1 ≤ steps) (sorted : IsSorted events) where
  best_of-keeps :
      (anchor : ℕ) (es : List Event) (best : Option Attempt)
      → drop anchor events ≡ es
      → IsDeepest (ceiling order events steps window) best
      → best_of order events steps window exclusions anchor es best ≡ best
  best_of-keeps anchor [] best here h = refl
  best_of-keeps anchor (e ∷ es) best here h =
      let next = best_of-keeps (suc anchor) es best (drop-suc anchor events e es here) h in
      elim (Bool-cases (is_anchor order steps e.mask)) [
        | inr skipped ↦ rw (best_of, skipped) next
        | inl first ↦
            elim (Option-cases (attempt_times order events steps window exclusions anchor)) [
              | inl spoilt ↦ rw (best_of, first, spoilt) next
              | inr (times, e_times) ↦
                  let low =
                    attempt_times-le order events steps window exclusions anchor e es times
                      some_step sorted here first e_times in
                  rw
                    (
                      best_of,
                      first,
                      e_times,
                      better-keeps (ceiling order events steps window) best anchor times h low,
                    )
                    next
            ]
      ]

  best_from-eq :
      (anchor : ℕ) (es : List Event) (best : Option Attempt)
      → drop anchor events ≡ es
      → best_from order events steps window exclusions anchor es best
        ≡ best_of order events steps window exclusions anchor es best
  best_from-eq anchor [] best here = refl
  best_from-eq anchor (e ∷ es) best here =
      let there = drop-suc anchor events e es here in
      elim (Bool-cases (is_anchor order steps e.mask)) [
        | inr skipped ↦ rw (best_from, best_of, skipped) (best_from-eq (suc anchor) es best there)
        | inl first ↦
            elim (Option-cases (attempt_times order events steps window exclusions anchor)) [
              | inl spoilt ↦
                  rw (best_from, best_of, first, spoilt) (best_from-eq (suc anchor) es best there)
              | inr (times, e_times) ↦
                  elim (Bool-cases (leb (ceiling order events steps window) (length times))) [
                    | inr on ↦
                        rw (best_from, best_of, first, e_times, on)
                          (best_from-eq (suc anchor) es (better best anchor times) there)
                    | inl stop ↦
                        rw (best_from, best_of, first, e_times, stop)
                          (sym (
                            best_of-keeps (suc anchor) es (better best anchor times) there (
                              better-IsDeepest (ceiling order events steps window) best anchor times
                                (ground arith))))
                  ]
            ]
      ]

-- In events that are sorted by time, the search that stops at the first attempt as deep as the ceiling returns
-- what a search through all anchors returns, in every order and with any exclusions.
pub best_attempt-eq :
    (events : List Event) (order : FunnelOrder) (steps window : ℕ) (exclusions : List Exclusion)
    → 1 ≤ steps
    → IsSorted events
    → best_attempt events order steps window exclusions
      ≡ best_of order events steps window exclusions 0 events none
unfolding best_attempt
best_attempt-eq events order steps window exclusions some_step sorted =
    best_from-eq order events steps window exclusions some_step sorted 0 events none refl
