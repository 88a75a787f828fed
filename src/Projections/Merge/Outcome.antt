-- ===== src/Projections/Merge/Outcome.antt =====
-- What a whole `merge_persons` gives: that it does not fail, and whom it never joins.
use hoglet.Prelude.{
  String, ◌≡◌, refl, sym, ◌≢◌, ◌⊎◌, inl, inr, false, ◌&&◌, some, arith, eq_iff, if◌then◌else◌,
  Bool-cases, ◌==◌, nat_eq, string_eq, ok, list_eq,
}
use hoglet.Projections.Store.{Person, Tables, resolve, person_of}
use hoglet.Projections.Views.{IsConsistent}
use hoglet.Projections.Merge.{
  MergeGuard, merged, fold_into, fold_persons, guarded, merge_ids, refuse_identified_source,
  refuse_both_identified, always,
}
use hoglet.Projections.Merge.Folded.{Folded, fold_into-Folded}

-- Whom the guard lets through.
abbrev pub Allows : MergeGuard → Person → Person → Type 0
Allows guard a b = (guard ≡ always) ⊎ ((a.is_identified && b.is_identified) ≡ false)

-- One person is folded into the other, as the guard allows.
pub record Joined (t t' : Tables) (project_id winner loser : String) (guard : MergeGuard)
    : Type 0 where
  pub winner_row : Person
  pub loser_row : Person
  pub row : Person
  pub wins : person_of t project_id winner ≡ some winner_row
  pub loses : person_of t project_id loser ≡ some loser_row
  pub apart : winner ≢ loser
  pub allowed : Allows guard winner_row loser_row
  pub joined : Folded t t' project_id winner loser row

abbrev pub Outcome : Tables → Tables → String → String → String → MergeGuard → Type 0
Outcome t t' project_id winner loser guard =
    ((t' ≡ t) × ((winner ≡ loser) ⊎ (guard ≢ always)))
    ⊎ Joined t t' project_id winner loser guard
    ⊎ Joined t t' project_id loser winner guard

module _ (t : Tables) (project_id winner : String) (winner_row : Person) (loser : String)
    (loser_row : Person) where
  fold_persons-rows :
      person_of t project_id winner ≡ some winner_row
      → person_of t project_id loser ≡ some loser_row
      → fold_persons t project_id winner loser
        ≡ ok (fold_into t project_id winner winner_row loser loser_row)
  unfolding fold_persons
  fold_persons-rows w l = rw (w, l) refl

module _ (t : Tables) (project_id winner : String) (winner_row : Person) (loser : String)
    (loser_row : Person) (guard : MergeGuard) where
  merge_ids-rows :
      winner ≢ loser
      → person_of t project_id winner ≡ some winner_row
      → person_of t project_id loser ≡ some loser_row
      → merge_ids t project_id winner loser guard ≡ (
          if loser_row.is_identified
          then guarded t project_id winner loser guard
          else fold_persons t project_id winner loser)
  unfolding merge_ids
  merge_ids-rows apart w l = ground (arith, eq_iff winner loser)

module _ (t : Tables) (project_id winner : String) (winner_row : Person) (loser : String)
    (loser_row : Person) where
  guarded-refuses_both :
      person_of t project_id winner ≡ some winner_row
      → guarded t project_id winner loser refuse_both_identified
        ≡ (if winner_row.is_identified then ok t else fold_persons t project_id loser winner)
  unfolding guarded
  guarded-refuses_both w = rw (w) refl

  merge_ids-cases :
      (guard : MergeGuard)
      → winner ≢ loser
      → person_of t project_id winner ≡ some winner_row
      → person_of t project_id loser ≡ some loser_row
      → ((guard ≢ always) × (merge_ids t project_id winner loser guard ≡ ok t))
        ⊎ (Allows guard winner_row loser_row
            × (merge_ids t project_id winner loser guard
                ≡ ok (fold_into t project_id winner winner_row loser loser_row)))
        ⊎ (Allows guard loser_row winner_row
            × (merge_ids t project_id winner loser guard
                ≡ ok (fold_into t project_id loser loser_row winner winner_row)))
  unfolding guarded
  merge_ids-cases refuse_identified_source apart w l = ground (
    arith,
    merge_ids-rows t project_id winner winner_row loser loser_row refuse_identified_source apart w
        l,
    fold_persons-rows t project_id winner winner_row loser loser_row w l,
  )
  merge_ids-cases refuse_both_identified apart w l = ground (
    arith,
    merge_ids-rows t project_id winner winner_row loser loser_row refuse_both_identified apart w l,
    guarded-refuses_both w,
    fold_persons-rows t project_id winner winner_row loser loser_row w l,
    fold_persons-rows t project_id loser loser_row winner winner_row l w,
  )
  merge_ids-cases always apart w l = ground (
    arith,
    merge_ids-rows t project_id winner winner_row loser loser_row always apart w l,
    fold_persons-rows t project_id winner winner_row loser loser_row w l,
  )

module _ (t : Tables) (project_id winner loser : String) (guard : MergeGuard) where
  pub merge_ids-Outcome :
      IsConsistent t
      → resolve t project_id winner ≡ some winner
      → resolve t project_id loser ≡ some loser
      → (t' : Tables) × (merge_ids t project_id winner loser guard ≡ ok t')
        × IsConsistent t'
        × Outcome t t' project_id winner loser guard
  unfolding merge_ids
  merge_ids-Outcome c found_w found_l = elim (Bool-cases (winner == loser)) [
    | inl same ↦ (t, rw (same) refl, c, inl (refl, inl (ground (arith, eq_iff winner loser))))
    | inr differ ↦
        let (wr, w) = c.leads project_id winner winner found_w in
        let (lr, l) = c.leads project_id loser loser found_l in
        let apart : winner ≢ loser = λ e. ground (arith, eq_iff winner loser) in
        elim (merge_ids-cases t project_id winner wr loser lr guard apart w l) [
          | inl (careful, kept) ↦ (t, kept, c, inl (refl, inr careful))
          | inr (inl (allowed, joined)) ↦
              let f = fold_into-Folded t project_id winner wr loser lr c apart w in
              (
                fold_into t project_id winner wr loser lr,
                joined,
                f.consistent,
                inr (
                    inl (record {
                      winner_row = wr;
                      loser_row = lr;
                      row = merged wr lr;
                      wins = w;
                      loses = l;
                      apart = apart;
                      allowed = allowed;
                      joined = f;
                    })),
              )
          | inr (inr (allowed, joined)) ↦
              let f = fold_into-Folded t project_id loser lr winner wr c (λ e. apart (sym e)) l in
              (
                fold_into t project_id loser lr winner wr,
                joined,
                f.consistent,
                inr (
                    inr (record {
                      winner_row = lr;
                      loser_row = wr;
                      row = merged lr wr;
                      wins = l;
                      loses = w;
                      apart = λ e. apart (sym e);
                      allowed = allowed;
                      joined = f;
                    })),
              )
        ]
  ]
