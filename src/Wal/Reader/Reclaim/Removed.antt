-- ===== src/Wal/Reader/Reclaim/Removed.antt =====
-- Which segments are covered, and what their removal leaves when some of the calls fail.
use hoglet.Wal.Reader.Resume.{run_at}
use hoglet.Wal.Layout.{sequences_of, Segment}
use hoglet.Wal.Reader.Reclaim.{remove_files, without, covered}
use hoglet.Wal.Layout.Contiguous.{IsRun}
use hoglet.Wal.Codec.{Codec}
use hoglet.Wal.Batch.{WalError, WalCursor, IoError}
use hoglet.Wal.Writer.Append.{Contents, files}
use hoglet.Prelude.{
  ℕ, ◌+◌, ◌≤◌, ◌<◌, ◌≡◌, refl, sym, ap, ◌∙◌, Option, none, some, List, [], ◌∷◌, ◌++◌, arith, length,
  Result, ok,
}

module _ (c : Codec) where
  without-run :
      (f q : ℕ) (l : Contents)
      → IsRun f (sequences_of (files c l))
      → q < f
      → without q (files c l) ≡ files c l
  without-run f q [] r h = refl
  without-run f q (s ∷ l) r h = ground (arith, without-run (f + 1) q l r.1)

  without_head :
      (f : ℕ) (s : ℕ × List (List ℕ)) (l : Contents)
      → IsRun f (sequences_of (files c (s ∷ l)))
      → without s.0 (files c (s ∷ l)) ≡ files c l
  without_head f s l r = ground (arith, without-run (f + 1) s.0 l r.1)

  -- The removals took a part of `before`, oldest first, and all of it when they succeed.
  abbrev pub Removes : Contents → Contents → List Segment × Result (Unit {0}) WalError → Type 0
  Removes before rest out =
      (gone : Contents) × (stay : Contents) × (before ≡ gone ++ stay)
      × (out.0 ≡ files c (stay ++ rest))
      × (out.1 ≡ ok tt → stay ≡ [])

  Removes-cons :
      (s : ℕ × List (List ℕ)) (before rest : Contents)
      (first out : List Segment × Result (Unit {0}) WalError)
      → first ≡ out
      → Removes before rest out
      → Removes (s ∷ before) rest first
  Removes-cons s before rest first out e (gone, stay, split, left, whole) = (
    s ∷ gone,
    stay,
    ap (◌∷◌ s) split,
    ap (λ o. o.0) e ∙ left,
    λ h. whole (sym (ap (λ o. o.1) e) ∙ h),
  )

  pub remove_files-Removes :
      (f : ℕ) (before rest : Contents) (answers : List (Option IoError))
      → IsRun f (sequences_of (files c (before ++ rest)))
      → Removes before rest (remove_files (files c before) answers (files c (before ++ rest)))
  unfolding remove_files
  remove_files-Removes f [] rest answers r = ([], [], refl, refl, λ _. refl)
  remove_files-Removes f (s ∷ before) rest [] r =
      Removes-cons s before rest _ _
        (ap (remove_files (files c before) []) (without_head f s (before ++ rest) r))
        (remove_files-Removes (f + 1) before rest [] r.1)
  remove_files-Removes f (s ∷ before) rest (some e ∷ answers) r =
      ([], s ∷ before, refl, refl, λ h. absurd (cc))
  remove_files-Removes f (s ∷ before) rest (none ∷ answers) r =
      Removes-cons s before rest _ _
        (ap (remove_files (files c before) answers) (without_head f s (before ++ rest) r))
        (remove_files-Removes (f + 1) before rest answers r.1)

  pub covered-all :
      (checkpoint : WalCursor) (valid_bytes f : ℕ) (sealed : Contents)
      → IsRun f (sequences_of (files c sealed))
      → f + length sealed ≤ checkpoint.segment
      → covered checkpoint valid_bytes (files c sealed) ≡ files c sealed
  unfolding covered
  covered-all cp v f [] r h = refl
  covered-all cp v f (s ∷ sealed) r h = ground (arith, covered-all cp v (f + 1) sealed r.1)

  covered-none :
      (checkpoint : WalCursor) (valid_bytes f : ℕ) (sealed : Contents)
      → IsRun f (sequences_of (files c sealed))
      → checkpoint.segment < f
      → covered checkpoint valid_bytes (files c sealed) ≡ []
  unfolding covered
  covered-none cp v f [] r h = refl
  covered-none cp v f (s ∷ sealed) r h = ground arith

  pub covered-before :
      (checkpoint : WalCursor) (valid_bytes f q : ℕ) (before more : Contents) (ps : List (List ℕ))
      → IsRun f (sequences_of (files c (before ++ (q, ps) ∷ more)))
      → checkpoint.segment ≡ q
      → checkpoint.byte_offset < valid_bytes
      → covered checkpoint valid_bytes (files c (before ++ (q, ps) ∷ more)) ≡ files c before
  unfolding covered
  covered-before cp v f q [] more ps r e h = ground (arith, covered-none cp v (f + 1) more r.1)
  covered-before cp v f q (b ∷ before) more ps r e h = ground (
    arith,
    run_at c f q (b ∷ before) more ps r,
    covered-before cp v (f + 1) q before more ps r.1 e h,
  )
