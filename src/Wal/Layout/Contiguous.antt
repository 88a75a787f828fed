-- ===== src/Wal/Layout/Contiguous.antt =====
-- The layouts that are accepted.
use hoglet.Prelude.{
  ℕ, suc, ◌+◌, ◌<◌, ◌≡◌, refl, sym, ap, ◌∙◌, ◌≢◌, inl, inr, Bool, false, not, none, some, List, [],
  ◌∷◌, arith, ltb, Bool-cases, Option-cases, ◌==◌, nat_eq, string_eq, length, ok, list_eq,
}
use mathlib.Core.Option.{some-injective}
use hoglet.Wal.Layout.{
  SegmentLayout, Segment, check_windows, sequences_of, last_of, insert_sequence, discover,
  starts_at_zero, discover_segment_layout,
}

-- `first`, `first + 1`, ….
abbrev pub IsRun : ℕ → List ℕ → Type 0
IsRun first [] = Unit
IsRun first (s ∷ ss) = (s ≡ first) × IsRun (first + 1) ss

-- The segments' sequences are positive and without a gap, and the active one is the newest.
pub record IsContiguous (layout : SegmentLayout) : Type 0 where
  pub first : ℕ
  pub positive : 0 < first
  pub run : IsRun first (sequences_of layout.sealed)
  pub newest :
      (active : Segment) → layout.active ≡ some active → active.0 ≡ first + length layout.sealed

check_windows-IsRun : (s : ℕ) (ss : List ℕ) → check_windows (s ∷ ss) ≡ ok tt → IsRun (s + 1) ss
unfolding check_windows
check_windows-IsRun s [] h = tt
check_windows-IsRun s (t ∷ ts) h =
    let e : t ≡ s + 1 = ground arith in (e, rw (← e) (check_windows-IsRun t ts (ground arith)))

check_windows-run :
    (l : List ℕ) (s : ℕ) (ss : List ℕ) → l ≡ s ∷ ss → check_windows l ≡ ok tt → IsRun s l
check_windows-run l s ss e h = rw e (refl, check_windows-IsRun s ss (ap check_windows (sym e) ∙ h))

last_of-IsRun :
    (f : ℕ) (l : List ℕ) (newest : ℕ)
    → IsRun f l
    → last_of l ≡ some newest
    → newest + 1 ≡ f + length l
last_of-IsRun f [] newest r e = ground arith
last_of-IsRun f (s ∷ []) newest r e = ground arith
last_of-IsRun f (s ∷ t ∷ ts) newest (h, r) e =
    omega (arith, last_of-IsRun (f + 1) (t ∷ ts) newest r e)

length-insert_sequence : (a : ℕ) (l : List ℕ) → length (insert_sequence a l) ≡ suc (length l)
unfolding insert_sequence
length-insert_sequence a [] = refl
length-insert_sequence a (t ∷ ts) = ground (arith, length-insert_sequence a ts)

insert_sequence-nonempty :
    (a : ℕ) (l : List ℕ) → (s : ℕ) × (ss : List ℕ) × (insert_sequence a l ≡ s ∷ ss)
unfolding insert_sequence
insert_sequence-nonempty a [] = (a, [], refl)
insert_sequence-nonempty a (t ∷ ts) = elim (Bool-cases (ltb a t)) [
  | inl before ↦ (a, t ∷ ts, rw before)
  | inr behind ↦ (t, insert_sequence a ts, rw behind)
]

IsRun-insert_sequence :
    (f a : ℕ) (l : List ℕ) → IsRun f (insert_sequence a l) → a ≡ f + length l → IsRun f l
unfolding insert_sequence
IsRun-insert_sequence f a [] r e = tt
IsRun-insert_sequence f a (t ∷ ts) r e = elim (Bool-cases (ltb a t)) [
  | inl before ↦ absurd (ground arith)
  | inr behind ↦
      let split = rw behind at r in
      (split.0, IsRun-insert_sequence (f + 1) a ts split.1 (omega arith))
]

length-sequences_of : (l : List Segment) → length (sequences_of l) ≡ length l
length-sequences_of [] = refl
length-sequences_of (s ∷ ss) = ap suc (length-sequences_of ss)

last_of-nonempty : (s : ℕ) (ss : List ℕ) → last_of (s ∷ ss) ≢ none
last_of-nonempty s [] e = cc
last_of-nonempty s (t ∷ ts) e = last_of-nonempty t ts e

only_sealed :
    (sealed : List Segment) (layout : SegmentLayout)
    → discover sealed none ≡ ok layout
    → (layout.sealed ≡ sealed) × IsContiguous layout
unfolding discover check_windows
only_sealed [] layout h =
    let e : record { sealed = []; active = none } ≡ layout = ground arith in
    rw (← e) (
      refl,
      record { first = 1; positive = omega arith; run = tt; newest = λ active p. ground arith },
    )
only_sealed (s ∷ ss) layout h =
    let e : record { sealed = s ∷ ss; active = none } ≡ layout = ground arith in
    rw (← e) (
      refl,
      record {
        first = s.0;
        positive = ground arith;
        run = (refl, check_windows-IsRun s.0 (sequences_of ss) (ground arith));
        newest = λ active p. ground arith;
      },
    )

-- The last of a list that is not empty is the number that the code compared with it.
newest_of :
    (l : List ℕ) (s : ℕ) (ss : List ℕ) (a : ℕ)
    → l ≡ s ∷ ss
    → elim (last_of l) as (λ _. Bool) [ none ↦ false | some newest ↦ not (a == newest) ] ≡ false
    → (newest : ℕ) × (last_of l ≡ some newest) × (a ≡ newest)
newest_of l s ss a shape h = elim (Option-cases (last_of l)) [
  | inl empty ↦ absurd (last_of-nonempty s ss (ap last_of (sym shape) ∙ empty))
  | inr (newest, e) ↦ (newest, e, ground arith)
]

positive_first : (l : List ℕ) (s : ℕ) (ss : List ℕ) → l ≡ s ∷ ss → starts_at_zero l ≡ false → 0 < s
positive_first l s ss shape h =
    let z : starts_at_zero (s ∷ ss) ≡ false = ap starts_at_zero (sym shape) ∙ h in ground arith

with_active :
    (sealed : List Segment) (active : Segment) (layout : SegmentLayout)
    → discover sealed (some active) ≡ ok layout
    → (layout.sealed ≡ sealed) × IsContiguous layout
unfolding discover
with_active sealed active layout h =
    let l = insert_sequence active.0 (sequences_of sealed) in
    let e : record { sealed = sealed; active = some active } ≡ layout = ground arith in
    let (s, ss, shape) = insert_sequence-nonempty active.0 (sequences_of sealed) in
    let run = check_windows-run l s ss shape (ground arith) in
    let (newest, last, is_active) = newest_of l s ss active.0 shape (ground arith) in
    let at_end : active.0 ≡ s + length (sequences_of sealed) = omega (
      arith,
      last_of-IsRun s l newest run last,
      length-insert_sequence active.0 (sequences_of sealed),
      is_active,
    ) in
    rw (← e) (
      refl,
      record {
        first = s;
        positive = positive_first l s ss shape (ground arith);
        run = IsRun-insert_sequence s active.0 (sequences_of sealed) run at_end;
        newest = λ other p. omega (
          arith,
          ap (λ (x : Segment). x.0) (some-injective active other p),
          at_end,
          length-sequences_of sealed,
        );
      },
    )

-- When the layout is accepted, it has the sealed segments of the directory and at most one active
-- segment, and the sequences are positive, without a gap or a repetition, with the active segment's
-- after all the others.
pub discover-IsContiguous :
    (sealed actives : List Segment) (layout : SegmentLayout)
    → discover_segment_layout sealed actives ≡ ok layout
    → (layout.sealed ≡ sealed) × IsContiguous layout
unfolding discover_segment_layout
discover-IsContiguous sealed [] layout h = only_sealed sealed layout h
discover-IsContiguous sealed (active ∷ []) layout h = with_active sealed active layout h
discover-IsContiguous sealed (a ∷ b ∷ more) layout h = cc
