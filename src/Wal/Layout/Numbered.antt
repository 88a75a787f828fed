-- ===== src/Wal/Layout/Numbered.antt =====
-- The segments of a log that is written to are numbered one after the other, and so are accepted.
use hoglet.Wal.Layout.Contiguous.{IsRun}
use hoglet.Wal.Layout.{
  Segment, sequences_of, insert_sequence, check_windows, last_of, discover, discover_segment_layout,
  starts_at_zero, u64_max,
}
use hoglet.Prelude.{
  ℕ, ◌+◌, ◌≤◌, ◌<◌, ◌≡◌, refl, ap, false, some, List, [], ◌∷◌, ◌++◌, arith, ltb, length,
  length-append, ok,
}

-- Sealed segments, and the sequence of the active one.
pub record AreNumbered (sealed : List Segment) (active : ℕ) : Type 0 where
  pub first : ℕ
  pub positive : 0 < first
  pub run : IsRun first (sequences_of sealed)
  pub newest : active ≡ first + length (sequences_of sealed)
  pub fits : active ≤ u64_max

sequences_of-append :
    (ss : List Segment) (s : Segment) → sequences_of (ss ++ s ∷ []) ≡ sequences_of ss ++ s.0 ∷ []
sequences_of-append [] s = refl
sequences_of-append (t ∷ ss) s = ap (◌∷◌ t.0) (sequences_of-append ss s)

IsRun-append : (f a : ℕ) (l : List ℕ) → IsRun f l → a ≡ f + length l → IsRun f (l ++ a ∷ [])
IsRun-append f a [] r e = (omega arith, tt)
IsRun-append f a (s ∷ ss) (h, r) e = (h, IsRun-append (f + 1) a ss r (omega arith))

-- The active segment is sealed, and the next one begins.
pub AreNumbered-seal :
    (sealed : List Segment) (active : ℕ) (file : List ℕ)
    → AreNumbered sealed active
    → active + 1 ≤ u64_max
    → AreNumbered (sealed ++ (active, file) ∷ []) (active + 1)
AreNumbered-seal sealed active file h room =
    let e = sequences_of-append sealed (active, file) in
    record {
      first = h.first;
      positive = h.positive;
      run = rw e (IsRun-append h.first active (sequences_of sealed) h.run h.newest);
      newest = rw e (omega (arith, h.newest, length-append (sequences_of sealed) (active ∷ [])));
      fits = room;
    }

insert_sequence-newest :
    (f a : ℕ) (l : List ℕ) → IsRun f l → a ≡ f + length l → insert_sequence a l ≡ l ++ a ∷ []
unfolding insert_sequence
insert_sequence-newest f a [] r e = refl
insert_sequence-newest f a (t ∷ ts) (h, r) e =
    let behind : ltb a t ≡ false = ground arith in
    rw behind (ap (◌∷◌ t) (insert_sequence-newest (f + 1) a ts r (omega arith)))

check_windows-run_ok :
    (f : ℕ) (l : List ℕ) → IsRun f l → f + length l ≤ u64_max + 1 → check_windows l ≡ ok tt
unfolding check_windows
check_windows-run_ok f [] r h = refl
check_windows-run_ok f (s ∷ []) r h = refl
check_windows-run_ok f (s ∷ t ∷ ts) (e, (e', r)) h =
    let rest = check_windows-run_ok (f + 1) (t ∷ ts) (e', r) (omega arith) in ground arith

last_of-snoc : (l : List ℕ) (a : ℕ) → last_of (l ++ a ∷ []) ≡ some a
last_of-snoc [] a = refl
last_of-snoc (s ∷ []) a = refl
last_of-snoc (s ∷ t ∷ ts) a = last_of-snoc (t ∷ ts) a

starts_at_zero-run : (f : ℕ) (l : List ℕ) → IsRun f l → 0 < f → starts_at_zero l ≡ false
starts_at_zero-run f [] r h = refl
starts_at_zero-run f (s ∷ ss) (e, r) h = ground arith

pub discover-AreNumbered :
    (sealed : List Segment) (active : Segment)
    → AreNumbered sealed active.0
    → discover_segment_layout sealed (active ∷ [])
      ≡ ok (record { sealed = sealed; active = some active })
unfolding discover_segment_layout discover
discover-AreNumbered sealed active h =
    let l = sequences_of sealed ++ active.0 ∷ [] in
    let run = IsRun-append h.first active.0 (sequences_of sealed) h.run h.newest in
    let bound = length-append (sequences_of sealed) (active.0 ∷ []) in
    let there = insert_sequence-newest h.first active.0 (sequences_of sealed) h.run h.newest in
    let windows = check_windows-run_ok h.first l run (omega (arith, h.newest, h.fits)) in
    let positive = starts_at_zero-run h.first l run h.positive in
    let last = last_of-snoc (sequences_of sealed) active.0 in
    rw (there, positive, windows, last) (ground arith)
