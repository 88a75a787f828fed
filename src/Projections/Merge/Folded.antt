-- ===== src/Projections/Merge/Folded.antt =====
-- What a merge does to the two views, and that it keeps the tables consistent.
use hoglet.Prelude.{
  ◌+◌, String, ◌≡◌, refl, ◌≢◌, inl, inr, ◌&&◌, none, some, arith, eq_iff, if◌then◌else◌, Bool-cases,
  Option-cases, ◌==◌, nat_eq, string_eq, list_eq,
}
use mathlib.Core.Option
use hoglet.Prelude.Map.{==_refl}
use hoglet.Projections.Store.{
  Person, Tables, resolve, person_of, update_person, repoint, delete_person, next_identity_seq,
}
use hoglet.Projections.Views.{
  IsConsistent, person_of-update_person, resolve-repoint, person_of-repoint,
  person_of-delete_person,
}
use hoglet.Projections.Merge.{merged, fold_into}

-- `loser` is folded into `winner`: their distinct ids lead to `winner`, whose row joins both, `loser` is
-- gone, and all else is as it was.
pub record Folded (t t' : Tables) (project_id winner loser : String) (row : Person) : Type 0 where
  pub consistent : IsConsistent t'
  pub ids :
      (p d : String)
      → resolve t' p d
        ≡ Option.map (λ r. if p == project_id && r == loser then winner else r) (resolve t p d)
  pub persons :
      (p i : String)
      → person_of t' p i ≡ (
          if project_id == p && loser == i
          then none
          else Option.map
              (λ r. if p == project_id && i == winner then row else r)
              (person_of t p i))

module _ (t : Tables) (project_id winner : String) (winner_row : Person) (loser : String)
    (loser_row : Person) where
  abbrev pub folded : Tables
  folded = fold_into t project_id winner winner_row loser loser_row

  resolve-folded :
      (p d : String)
      → resolve folded p d
        ≡ Option.map (λ r. if p == project_id && r == loser then winner else r) (resolve t p d)
  unfolding fold_into next_identity_seq resolve update_person delete_person
  resolve-folded p d =
      resolve-repoint (record t { identity_seq = t.identity_seq + 1 }) project_id loser winner
        (t.identity_seq + 1) p d

  person_of-folded :
      (p i : String)
      → person_of folded p i ≡ (
          if project_id == p && loser == i
          then none
          else Option.map
              (λ r. if p == project_id && i == winner then merged winner_row loser_row else r)
              (person_of t p i))
  unfolding fold_into next_identity_seq
  person_of-folded p i =
      let t1 = record t { identity_seq = t.identity_seq + 1 } in
      let t2 = repoint t1 project_id loser winner (t.identity_seq + 1) in
      let f = λ (_ : Person). merged winner_row loser_row in
      let t3 = update_person t2 project_id winner f in
      let same : person_of t1 p i ≡ person_of t p i = unfold person_of in refl in
      rw
        (
          person_of-delete_person t3 project_id loser p i,
          person_of-update_person t2 project_id winner f p i,
          person_of-repoint t1 project_id loser winner (t.identity_seq + 1) p i,
          same,
        )
        refl

  resolve-folded_known :
      (p d j : String)
      → resolve t p d ≡ some j
      → resolve folded p d ≡ some (if p == project_id && j == loser then winner else j)
  resolve-folded_known p d j h = rw (resolve-folded p d, h) refl

  person_of-folded_known :
      (p i : String) (r : Person)
      → person_of t p i ≡ some r
      → person_of folded p i ≡ (
          if project_id == p && loser == i
          then none
          else some (if p == project_id && i == winner then merged winner_row loser_row else r))
  person_of-folded_known p i r h = rw (person_of-folded p i, h) refl

  person_of-folded_free : (p i : String) → person_of t p i ≡ none → person_of folded p i ≡ none
  person_of-folded_free p i h = rw (person_of-folded p i, h) (ground arith)

  resolve-folded_free : (p d : String) → resolve t p d ≡ none → resolve folded p d ≡ none
  resolve-folded_free p d h = rw (resolve-folded p d, h) refl

  own-folded :
      IsConsistent t
      → (p i : String) (row : Person) → person_of folded p i ≡ some row
      → resolve folded p i ≡ some i
  own-folded c p i row h = elim (Option-cases (person_of t p i)) [
    | inl free ↦ ground (arith, person_of-folded_free p i free)
    | inr (r, found) ↦
        let known : resolve t p i ≡ some i = c.own p i r found in
        ground (
          arith,
          person_of-folded_known p i r found,
          resolve-folded_known p i i known,
          eq_iff p project_id,
          eq_iff project_id p,
          eq_iff i loser,
          eq_iff loser i,
        )
  ]

  leads-folded :
      IsConsistent t
      → winner ≢ loser
      → person_of t project_id winner ≡ some winner_row
      → (p d i : String) → resolve folded p d ≡ some i
      → (row : Person) × (person_of folded p i ≡ some row)
  leads-folded c apart w p d i h = elim (Option-cases (resolve t p d)) [
    | inl free ↦ absurd (ground (arith, resolve-folded_free p d free))
    | inr (j, found) ↦
        let (r, there) = c.leads p d j found in
        elim (Bool-cases (p == project_id && j == loser)) [
          | inl moved ↦ (
            merged winner_row loser_row,
            ground (
              arith,
              resolve-folded_known p d j found,
              person_of-folded_known project_id winner winner_row w,
              eq_iff p project_id,
              eq_iff loser winner,
              ==_refl project_id,
              ==_refl winner,
            ),
          )
          | inr stays ↦ (
            (if p == project_id && j == winner then merged winner_row loser_row else r),
            ground (
              arith,
              resolve-folded_known p d j found,
              person_of-folded_known p j r there,
              eq_iff p project_id,
              eq_iff project_id p,
              eq_iff j loser,
              eq_iff loser j,
            ),
          )
        ]
  ]

  pub fold_into-Folded :
      IsConsistent t
      → winner ≢ loser
      → person_of t project_id winner ≡ some winner_row
      → Folded t folded project_id winner loser (merged winner_row loser_row)
  fold_into-Folded c apart w = record {
    consistent = record { own = own-folded c; leads = leads-folded c apart w };
    ids = resolve-folded;
    persons = person_of-folded;
  }
