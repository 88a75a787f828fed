-- ===== src/Wal/Cursor/Race.antt =====
-- Which of the attempts is returned.
use hoglet.Wal.Cursor.{is_layout_race, retry_layout_race, retry_from}
use hoglet.Wal.Batch.{WalError}
use hoglet.Prelude.{
  ℕ, zero, suc, ◌+◌, ◌≤◌, ◌<◌, ◌≡◌, refl, ◌∙◌, inl, inr, Bool, true, false, arith, Bool-cases, ◌==◌,
  nat_eq, string_eq, Result-cases, Result, ok, err, list_eq, Result-cases,
}

module _ {ℓ} {A : Type ℓ} where
  -- The attempt lost a race with the writer.
  abbrev pub lost : Result A WalError → Bool
  lost (ok a) = false
  lost (err e) = is_layout_race e

  -- The attempt `i` is the first one that was not lost, or else the last of `attempts`.
  pub record IsChosen (attempt : ℕ → Result A WalError) (from attempts i : ℕ) : Type 0 where
    pub behind : from ≤ i
    pub inside : i < from + attempts
    pub earlier : (j : ℕ) → from ≤ j → j < i → lost (attempt j) ≡ true
    pub final : lost (attempt i) ≡ true → i + 1 ≡ from + attempts

  retry_from-won :
      (attempt : ℕ → Result A WalError) (n i : ℕ)
      → lost (attempt i) ≡ false
      → retry_from attempt (suc n) i ≡ attempt i
  unfolding retry_from
  retry_from-won attempt n i h = elim (Result-cases (attempt i)) [
    | inl (a, e) ↦ rw (retry_from, e)
    | inr (x, e) ↦ rw (retry_from, e, rw (e, lost) at h)
  ]

  retry_from-lost :
      (attempt : ℕ → Result A WalError) (n i : ℕ)
      → lost (attempt i) ≡ true
      → retry_from attempt (suc n) i ≡ retry_from attempt n (i + 1)
  unfolding retry_from
  retry_from-lost attempt n i h = elim (Result-cases (attempt i)) [
    | inl (a, e) ↦ absurd (cc)
    | inr (x, e) ↦ rw (retry_from, e, rw (e, lost) at h)
  ]

  retry_from-IsChosen :
      (attempt : ℕ → Result A WalError) (n from : ℕ)
      → (i : ℕ) × (retry_from attempt n from ≡ attempt i) × IsChosen attempt from (n + 1) i
  unfolding retry_from
  retry_from-IsChosen attempt zero from = (
    from,
    refl,
    record {
      behind = omega arith;
      inside = omega arith;
      earlier = λ j a b. absurd (omega arith);
      final = λ h. omega arith;
    },
  )
  retry_from-IsChosen attempt (suc n) from = elim (Bool-cases (lost (attempt from))) [
    | inr won ↦ (
      from,
      retry_from-won attempt n from won,
      record {
        behind = omega arith;
        inside = omega arith;
        earlier = λ j a b. absurd (omega arith);
        final = λ h. absurd (cc);
      },
    )
    | inl gone ↦
        let (i, e, chosen) = retry_from-IsChosen attempt n (from + 1) in
        (
          i,
          retry_from-lost attempt n from gone ∙ e,
          record {
            behind = omega (arith, chosen.behind);
            inside = omega (arith, chosen.inside);
            earlier = λ j a b. earlier_or from i gone chosen j a b;
            final = λ h. omega (arith, chosen.final h);
          },
        )
  ]
    where
      earlier_or :
          (from i : ℕ)
          → lost (attempt from) ≡ true
          → IsChosen attempt (from + 1) (n + 1) i
          → (j : ℕ) → from ≤ j
          → j < i
          → lost (attempt j) ≡ true
      earlier_or from i gone chosen j a b = elim (Bool-cases (j == from)) [
        | inl same ↦ let e : j ≡ from = ground arith in rw e gone
        | inr other ↦ chosen.earlier j (ground arith) b
      ]

  -- The result is that of the first attempt that did not lose a race with the writer, and that of the
  -- fiftieth when all of them did: an error that is no race, and every success, is returned at once.
  pub retry_layout_race-IsChosen :
      (attempt : ℕ → Result A WalError)
      → (i : ℕ) × (retry_layout_race attempt ≡ attempt i) × IsChosen attempt 0 50 i
  unfolding retry_layout_race
  retry_layout_race-IsChosen attempt = retry_from-IsChosen attempt 49 0
