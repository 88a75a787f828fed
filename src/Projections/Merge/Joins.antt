-- ===== src/Projections/Merge/Joins.antt =====
-- What `merge_persons` promises its callers.
use hoglet.Prelude.Map.{==_refl}
use hoglet.Prelude.{
  String, ◌≡◌, refl, ◌≢◌, inl, inr, true, some, arith, eq_iff, nat_eq, string_eq, ok, list_eq,
}
use hoglet.Prelude.Int.{ℤ}
use hoglet.Projections.Store.{TimeFormat, Person, Tables, resolve}
use hoglet.Projections.Views.{IsConsistent, Ensured, ensure_person-Ensured}
use hoglet.Projections.Merge.{MergeGuard, merge_persons, always, person_of}
use hoglet.Projections.Merge.Folded.{Folded}
use hoglet.Projections.Merge.Outcome.{Outcome, merge_ids-Outcome, Joined}

IsConsistent-own_id :
    {t : Tables} (p d i : String) → IsConsistent t → resolve t p d ≡ some i → resolve t p i ≡ some i
IsConsistent-own_id p d i c h = let (row, found) = c.leads p d i h in c.own p i row found

-- The steps of one `merge_persons`.
pub record Steps (t t' : Tables) (project_id losing winning : String) (guard : MergeGuard)
    : Type 0 where
  pub after_winner : Tables
  pub after_loser : Tables
  pub winner : String
  pub loser : String
  pub found_winner : Ensured t after_winner project_id winning winner
  pub found_loser : Ensured after_winner after_loser project_id losing loser
  pub outcome : Outcome after_loser t' project_id winner loser guard

module _ (time : TimeFormat) (t : Tables) (project_id losing winning : String) (timestamp : ℤ)
    (guard : MergeGuard) where
  pub merge_persons-Steps :
      IsConsistent t
      → (t' : Tables) × (merge_persons time t project_id losing winning timestamp guard ≡ ok t')
        × IsConsistent t'
        × Steps t t' project_id losing winning guard
  unfolding merge_persons
  merge_persons-Steps c =
      let (a, w, runs_a, fa) = ensure_person-Ensured time t project_id winning timestamp c in
      let (b, l, runs_b, fb) =
        ensure_person-Ensured time a project_id losing timestamp fa.consistent in
      let own_w =
        fb.keeps_ids project_id w w
          (IsConsistent-own_id project_id winning w fa.consistent fa.resolves) in
      let own_l = IsConsistent-own_id project_id losing l fb.consistent fb.resolves in
      let (t', runs, c', outcome) =
        merge_ids-Outcome b project_id w l guard fb.consistent own_w own_l in
      (
        t',
        rw (runs_a, runs_b, runs) refl,
        c',
        record {
          after_winner = a;
          after_loser = b;
          winner = w;
          loser = l;
          found_winner = fa;
          found_loser = fb;
          outcome = outcome;
        },
      )

Joined-keeps_apart :
    {t t' : Tables} (p winner loser : String) (guard : MergeGuard) (a b i j : String)
    (row_i row_j : Person)
    → Joined t t' p winner loser guard
    → guard ≢ always
    → resolve t p a ≡ some i
    → resolve t p b ≡ some j
    → i ≢ j
    → person_of t p i ≡ some row_i
    → person_of t p j ≡ some row_j
    → row_i.is_identified ≡ true
    → row_j.is_identified ≡ true
    → resolve t' p a ≢ resolve t' p b
Joined-keeps_apart {t} {t'} p winner loser guard a b i j row_i row_j pair careful at bt apart ti tj
      yi yj e =
    let f = pair.joined in
    let wins = pair.wins in
    let loses = pair.loses in
    let allowed = pair.allowed in
    let differ = pair.apart in
    let moves_a = rw (at) at (f.ids p a) in
    let moves_b = rw (bt) at (f.ids p b) in
    ground (
      arith,
      moves_a,
      moves_b,
      eq_iff i loser,
      eq_iff j loser,
      eq_iff i winner,
      eq_iff j winner,
      ==_refl p,
    )

Folded-joins :
    {t t' : Tables} (p winner loser : String) (row : Person) (a b : String)
    → Folded t t' p winner loser row
    → winner ≢ loser
    → resolve t p a ≡ some winner
    → resolve t p b ≡ some loser
    → (resolve t' p a ≡ some winner) × (resolve t' p b ≡ some winner)
Folded-joins p winner loser row a b f apart at bt = (
  rw (f.ids p a, at) (ground (arith, eq_iff winner loser)),
  rw (f.ids p b, bt) (ground (arith, ==_refl p, ==_refl loser)),
)

Outcome-joins :
    {t t' : Tables} (p winner loser : String) (a b : String)
    → Outcome t t' p winner loser always
    → resolve t p a ≡ some winner
    → resolve t p b ≡ some loser
    → (person_id : String) × (resolve t' p a ≡ some person_id) × (resolve t' p b ≡ some person_id)
Outcome-joins p winner loser a b (inl (same, inl one)) at bt =
    (winner, rw (same) at, rw (same, one) bt)
Outcome-joins p winner loser a b (inl (same, inr careful)) at bt = absurd (careful refl)
Outcome-joins p winner loser a b (inr (inl j)) at bt =
    let (x, y) = Folded-joins p winner loser j.row a b j.joined j.apart at bt in (winner, x, y)
Outcome-joins p winner loser a b (inr (inr j)) at bt =
    let (y, x) = Folded-joins p loser winner j.row b a j.joined j.apart bt at in (loser, x, y)

module _ (time : TimeFormat) (t : Tables) (project_id losing winning : String) (timestamp : ℤ) where
  -- A `$merge_dangerously` of consistent tables succeeds, keeps them consistent, and leaves the two
  -- distinct ids with the same person.
  pub merge_persons-joins :
      IsConsistent t
      → (t' : Tables) × (merge_persons time t project_id losing winning timestamp always ≡ ok t')
        × IsConsistent t'
        × (person_id : String) × (resolve t' project_id winning ≡ some person_id)
        × (resolve t' project_id losing ≡ some person_id)
  merge_persons-joins c =
      let (t', runs, c', s) =
        merge_persons-Steps time t project_id losing winning timestamp always c in
      let win = s.found_loser.keeps_ids project_id winning s.winner s.found_winner.resolves in
      let lose = s.found_loser.resolves in
      let (person_id, a, b) =
        Outcome-joins project_id s.winner s.loser winning losing s.outcome win lose in
      (t', runs, c', person_id, a, b)

Outcome-keeps_apart :
    {t t' : Tables} (p winner loser : String) (guard : MergeGuard) (a b i j : String)
    (row_i row_j : Person)
    → Outcome t t' p winner loser guard
    → guard ≢ always
    → resolve t p a ≡ some i
    → resolve t p b ≡ some j
    → i ≢ j
    → person_of t p i ≡ some row_i
    → person_of t p j ≡ some row_j
    → row_i.is_identified ≡ true
    → row_j.is_identified ≡ true
    → resolve t' p a ≢ resolve t' p b
Outcome-keeps_apart p w l g a b i j ri rj (inl (same, _)) careful at bt apart ti tj yi yj =
    rw (same) (λ e. ground arith)
Outcome-keeps_apart p w l g a b i j ri rj (inr (inl pair)) careful at bt apart ti tj yi yj =
    Joined-keeps_apart p w l g a b i j ri rj pair careful at bt apart ti tj yi yj
Outcome-keeps_apart p w l g a b i j ri rj (inr (inr pair)) careful at bt apart ti tj yi yj =
    Joined-keeps_apart p l w g a b i j ri rj pair careful at bt apart ti tj yi yj

-- A merge of consistent tables whose guard is not `Always` (`$identify`, `$create_alias`) succeeds and
-- never joins two identified persons: two distinct ids of the project that lead to different identified
-- persons before the merge do so after it.
pub merge_persons-keeps_apart :
    (time : TimeFormat) (t : Tables) (project_id losing winning : String) (timestamp : ℤ)
    (guard : MergeGuard) (a b i j : String) (row_i row_j : Person)
    → IsConsistent t
    → guard ≢ always
    → resolve t project_id a ≡ some i
    → resolve t project_id b ≡ some j
    → i ≢ j
    → person_of t project_id i ≡ some row_i
    → person_of t project_id j ≡ some row_j
    → row_i.is_identified ≡ true
    → row_j.is_identified ≡ true
    → (t' : Tables) × (merge_persons time t project_id losing winning timestamp guard ≡ ok t')
      × IsConsistent t'
      × (resolve t' project_id a ≢ resolve t' project_id b)
merge_persons-keeps_apart time t p losing winning ts guard a b i j ri rj c careful at bt apart ti tj
      yi yj =
    let (t', runs, c', s) = merge_persons-Steps time t p losing winning ts guard c in
    let f = s.found_winner in
    let g = s.found_loser in
    (
      t',
      runs,
      c',
      Outcome-keeps_apart p s.winner s.loser guard a b i j ri rj s.outcome careful
          (g.keeps_ids p a i (f.keeps_ids p a i at)) (g.keeps_ids p b j (f.keeps_ids p b j bt))
          apart (g.keeps_persons p i ri (f.keeps_persons p i ri ti))
          (g.keeps_persons p j rj (f.keeps_persons p j rj tj)) yi yj,
    )
