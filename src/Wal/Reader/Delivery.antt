-- ===== src/Wal/Reader/Delivery.antt =====
-- What a window delivers of a log of whole segments.
use hoglet.Wal.Reader.{SealedRecords, WalRecord, Codec, next, next_record}
use hoglet.Wal.Reader.Window.{PublicationWindow, window_next, is_past}
use hoglet.Wal.Reader.Position.{
  Place, at_end, within, IsAt, IsPlace, cursor_of, records_left, Yields, next_record-Yields,
}
use hoglet.Wal.Batch.{WalError, WalCursor, u64_max}
use hoglet.Wal.Writer.Append.{Contents}
use mathlib.Core.Path.{subst}
use hoglet.Prelude.{
  ℕ, zero, suc, ◌+◌, ◌≤◌, ◌<◌, ◌≡◌, refl, ap, ◌∙◌, ◌⊎◌, inl, inr, true, false, Option, none, some,
  List, [], ◌∷◌, arith, ltb, Bool-cases, length, take, drop, All, Result, ok, err, ◌>>=◌,
}

-- The records that a caller takes from a window until it is at its end or fails, with the window then;
-- `none` when the calls were not enough.
unfoldable pub collect :
    Codec → ℕ → PublicationWindow → Option (PublicationWindow × Result (List WalRecord) WalError)
collect c zero w = none
collect c (suc calls) w =
    let w' = (window_next c w).0 in
    elim (window_next c w).1 [
      | none ↦ some (w', ok [])
      | some (err e) ↦ some (w', err e)
      | some (ok x) ↦ elim (collect c calls w') [
        | none ↦ none
        | some (last, result) ↦ some (last, result >>= λ xs. ok (x ∷ xs))
      ]
    ]

unfoldable pub total_framed : List WalRecord → ℕ
total_framed [] = 0
total_framed (x ∷ xs) = x.span.framed_bytes + total_framed xs

abbrev pub AreFramed : List WalRecord → Type 0
AreFramed = All (λ x. 0 < x.span.framed_bytes)

module _ (c : Codec) (m : ℕ) (end : WalCursor) (sealed : Contents) where
  pub next_cursor-IsAt :
      (r : SealedRecords) (place : Place)
      → IsAt c m end r place
      → r.next_cursor ≡ cursor_of c end place
  next_cursor-IsAt r at_end h = h.cursor
  next_cursor-IsAt r (within q passed ps more) h = h.cursor

  unfinished-IsAt :
      (r : SealedRecords) (place : Place) → IsAt c m end r place → r.is_finished ≡ false
  unfinished-IsAt r at_end h = h.unfinished
  unfinished-IsAt r (within q passed ps more) h = h.unfinished

  -- A window that goes on, with its checkpoint where its reader stands.
  pub record IsOpen (w : PublicationWindow) (place : Place) : Type 0 where
    pub reader : IsAt c m end w.records place
    pub known : IsPlace sealed place
    pub unfinished : w.is_finished ≡ false
    pub checkpoint : w.checkpoint ≡ w.records.next_cursor

  -- A window that began with `framed` bytes has yielded the first `count` of `xs`, and its checkpoint
  -- is the place of the others.
  pub record Delivers (framed max_bytes : ℕ) (xs : List WalRecord) (w : PublicationWindow)
      (ys : List WalRecord) : Type 0 where
    pub count : ℕ
    pub place : Place
    pub yields : ys ≡ take count xs
    pub known : IsPlace sealed place
    pub checkpoint : w.checkpoint ≡ cursor_of c end place
    pub left : records_left c place ≡ drop count xs
    pub bounded :
        (count ≡ 0) ⊎ (total_framed ys + framed ≤ max_bytes) ⊎ ((framed ≡ 0) × (count ≡ 1))
    pub full :
        count < length xs
        → (max_bytes < framed + total_framed (take (suc count) xs)) × (0 < framed + count)

  next-none :
      (r r' : SealedRecords)
      → r.is_finished ≡ false
      → next_record c r ≡ (r', ok none)
      → next c r ≡ (record r' { is_finished = true }, none)
  unfolding next
  next-none r r' f e = rw (next, f, e) (rw e)

  next-some :
      (r r' : SealedRecords) (x : WalRecord)
      → r.is_finished ≡ false
      → next_record c r ≡ (r', ok (some x))
      → next c r ≡ (r', some (ok x))
  unfolding next
  next-some r r' x f e = rw (next, f, e) (rw e)

  module _ (w : PublicationWindow) (unfinished : w.is_finished ≡ false) where
    window_next-none :
        (r : SealedRecords)
        → next c w.records ≡ (r, none)
        → window_next c w
          ≡ (record w { records = r; checkpoint = r.next_cursor; is_finished = true }, none)
    unfolding window_next
    window_next-none r e = rw (window_next, unfinished, e) (rw e)

    window_next-past :
        (r : SealedRecords) (x : WalRecord)
        → next c w.records ≡ (r, some (ok x))
        → is_past w x ≡ true
        → window_next c w ≡ (record w { records = r; is_finished = true }, none)
    unfolding window_next
    window_next-past r x e past = rw (window_next, unfinished, e, past) (rw e)

    window_next-some :
        (r : SealedRecords) (x : WalRecord)
        → next c w.records ≡ (r, some (ok x))
        → is_past w x ≡ false
        → window_next c w ≡ (
          record w {
            records = r;
            framed_bytes = w.framed_bytes + x.span.framed_bytes;
            checkpoint = r.next_cursor;
          },
          some (ok x),
        )
    unfolding window_next
    window_next-some r x e past = ground (arith, e, past, unfinished)

  collect-end :
      (calls : ℕ) (w w' : PublicationWindow)
      → window_next c w ≡ (w', none)
      → collect c (suc calls) w ≡ some (w', ok [])
  unfolding collect
  collect-end calls w w' e = rw (collect, e) (rw e)

  collect-some :
      (calls : ℕ) (w w' last : PublicationWindow) (x : WalRecord) (xs : List WalRecord)
      → window_next c w ≡ (w', some (ok x))
      → collect c calls w' ≡ some (last, ok xs)
      → collect c (suc calls) w ≡ some (last, ok (x ∷ xs))
  unfolding collect
  collect-some calls w w' last x xs e f = ground (arith, e, f)

  is_past-lt :
      (w : PublicationWindow) (x : WalRecord)
      → is_past w x ≡ true
      → (0 < w.framed_bytes) × (w.max_bytes < w.framed_bytes + x.span.framed_bytes)
  unfolding is_past
  is_past-lt w x h = ground arith

  is_past-le :
      (w : PublicationWindow) (x : WalRecord)
      → w.max_bytes < u64_max
      → is_past w x ≡ false
      → (w.framed_bytes ≡ 0) ⊎ (w.framed_bytes + x.span.framed_bytes ≤ w.max_bytes)
  unfolding is_past
  is_past-le w x m h = elim (Bool-cases (ltb 0 w.framed_bytes)) [
    | inl e ↦ inr (ground arith)
    | inr e ↦ inl (ground arith)
  ]

  Delivers-cons :
      (framed max_bytes : ℕ) (x : WalRecord) (xs ys : List WalRecord) (w : PublicationWindow)
      → 0 < x.span.framed_bytes
      → (framed ≡ 0) ⊎ (framed + x.span.framed_bytes ≤ max_bytes)
      → Delivers (framed + x.span.framed_bytes) max_bytes xs w ys
      → Delivers framed max_bytes (x ∷ xs) w (x ∷ ys)
  unfolding total_framed
  Delivers-cons framed max_bytes x xs ys w positive fits d = record {
    count = suc d.count;
    place = d.place;
    yields = ap (◌∷◌ x) d.yields;
    known = d.known;
    checkpoint = d.checkpoint;
    left = d.left;
    bounded = ground (arith, ap total_framed d.yields);
    full = λ h. ground (arith, d.full);
  }

  full_of_past :
      (w : PublicationWindow) (x : WalRecord) (xs : List WalRecord)
      → is_past w x ≡ true
      → (w.max_bytes < w.framed_bytes + total_framed (take 1 (x ∷ xs))) × (0 < w.framed_bytes + 0)
  unfolding total_framed
  full_of_past w x xs h = omega (arith, is_past-lt w x h)

  pub collect-Delivers :
      (xs : List WalRecord) (place : Place) (w : PublicationWindow) (calls : ℕ)
      → IsOpen w place
      → records_left c place ≡ xs
      → AreFramed xs
      → w.max_bytes < u64_max
      → length xs < calls
      → (last : PublicationWindow) × (ys : List WalRecord) × (collect c calls w
          ≡ some (last, ok ys))
        × Delivers w.framed_bytes w.max_bytes xs last ys
  collect-Delivers xs place w zero h e f b l = absurd (omega arith)
  collect-Delivers [] place w (suc calls) h e f b l =
      let (r, reads, at) =
        subst (Yields c m end sealed w.records) e
          (next_record-Yields c m end sealed w.records place h.reader h.known) in
      let n = next-none w.records r (unfinished-IsAt w.records place h.reader) reads in
      (
        record w {
          records = record r { is_finished = true };
          checkpoint = r.next_cursor;
          is_finished = true;
        },
        [],
        collect-end calls w _ (window_next-none w h.unfinished _ n),
        record {
          count = 0;
          place = at_end;
          yields = refl;
          known = tt;
          checkpoint = at;
          left = unfold records_left in refl;
          bounded = inl refl;
          full = λ h. absurd (omega arith);
        },
      )
  collect-Delivers (x ∷ xs) place w (suc calls) h e f b l =
      let (r, reads, place', at, known, left) =
        subst (Yields c m end sealed w.records) e
          (next_record-Yields c m end sealed w.records place h.reader h.known) in
      let n = next-some w.records r x (unfinished-IsAt w.records place h.reader) reads in
      elim (Bool-cases (is_past w x)) [
        | inl past ↦ (
          record w { records = r; is_finished = true },
          [],
          collect-end calls w _ (window_next-past w h.unfinished r x n past),
          record {
            count = 0;
            place = place;
            yields = refl;
            known = h.known;
            checkpoint = h.checkpoint ∙ next_cursor-IsAt w.records place h.reader;
            left = e;
            bounded = inl refl;
            full = λ _. full_of_past w x xs past;
          },
        )
        | inr fits ↦
            let w' = record w {
              records = r;
              framed_bytes = w.framed_bytes + x.span.framed_bytes;
              checkpoint = r.next_cursor;
            } in
            let (last, ys, gives, d) =
              collect-Delivers xs place' w' calls
                (record {
                  reader = at;
                  known = known;
                  unfinished = h.unfinished;
                  checkpoint = refl;
                })
                left f.1 b (omega arith) in
            (
              last,
              x ∷ ys,
              collect-some calls w w' last x ys (window_next-some w h.unfinished r x n fits) gives,
              Delivers-cons w.framed_bytes w.max_bytes x xs ys last f.0 (is_past-le w x b fits) d,
            )
      ]
