-- ===== src/Members/Rows.antt =====
-- The statements on `organization_members`: what they do to its key and to the count of owners.
use hoglet.Members.{
  Role, Membership, find_role, count, is_row, set_role, delete, is_owner_of, is_owner,
}
use hoglet.Prelude.{
  ℕ, ◌+◌, ◌≤◌, String, ◌≡◌, refl, inl, inr, Bool, true, false, not, ◌&&◌, none, some, List, [], ◌∷◌,
  ◌++◌, arith, eq_iff, if◌then◌else◌, Bool-cases, ◌==◌, nat_eq, string_eq, list_eq,
}

-- The primary key: no two rows have the same organization and user.
abbrev pub IsKeyed : List Membership → Type 0
IsKeyed [] = Unit
IsKeyed (m ∷ ms) = (find_role m.organization_id m.user_id ms ≡ none) × IsKeyed ms

-- The owners of an organization apart from one user.
abbrev pub other_owners : String → String → List Membership → ℕ
other_owners org user = count (λ (m : Membership). is_owner_of org m && not (is_row org user m))

module _ (org user : String) where
  is_row_eq :
      (m : Membership) → is_row org user m ≡ true → (m.organization_id ≡ org) × (m.user_id ≡ user)
  is_row_eq m h = ground (arith, eq_iff m.organization_id org, eq_iff m.user_id user)

  -- Without a row of the user the owners are the others.
  absent_owners :
      (ms : List Membership)
      → find_role org user ms ≡ none
      → count (is_owner_of org) ms ≤ other_owners org user ms
  absent_owners [] h = omega arith
  absent_owners (m ∷ ms) h = elim (Bool-cases (is_row org user m)) [
    | inl e ↦ absurd (ground arith)
    | inr e ↦ ground (arith, absent_owners ms)
  ]

  -- The user's row counts for one owner at most, and for none unless its role is that.
  pub owners_le :
      (ms : List Membership) (role : Role)
      → IsKeyed ms
      → find_role org user ms ≡ some role
      → count (is_owner_of org) ms ≤ other_owners org user ms + (if is_owner role then 1 else 0)
  owners_le [] role k h = absurd (cc)
  owners_le (m ∷ ms) role (fresh, k) h = elim (Bool-cases (is_row org user m)) [
    | inl e ↦
        let (same_org, same_user) = is_row_eq m e in
        ground (arith, absent_owners ms (rw (same_org, same_user) at fresh))
    | inr e ↦ ground (arith, owners_le ms role k)
  ]

  pub others-set_role :
      (ms : List Membership) (role : Role)
      → other_owners org user ms ≤ count (is_owner_of org) (set_role org user role ms)
  others-set_role [] role = omega arith
  others-set_role (m ∷ ms) role = ground (arith, others-set_role ms role)

  pub others-delete :
      (ms : List Membership)
      → other_owners org user ms ≤ count (is_owner_of org) (delete (is_row org user) ms)
  others-delete [] = omega arith
  others-delete (m ∷ ms) = ground (arith, others-delete ms)

  -- The owners of another organization.
  pub elsewhere-set_role :
      (there : String) (ms : List Membership) (role : Role)
      → (org == there) ≡ false
      → count (is_owner_of there) (set_role org user role ms) ≡ count (is_owner_of there) ms
  elsewhere-set_role there [] role h = refl
  elsewhere-set_role there (m ∷ ms) role h = ground (
    arith,
    elsewhere-set_role there ms role h,
    eq_iff m.organization_id org,
    eq_iff m.organization_id there,
    eq_iff org there,
  )

  pub elsewhere-delete :
      (there : String) (ms : List Membership)
      → (org == there) ≡ false
      → count (is_owner_of there) (delete (is_row org user) ms) ≡ count (is_owner_of there) ms
  elsewhere-delete there [] h = refl
  elsewhere-delete there (m ∷ ms) h = ground (
    arith,
    elsewhere-delete there ms h,
    eq_iff m.organization_id org,
    eq_iff m.organization_id there,
    eq_iff org there,
  )

  -- The key is kept.
  pub find_role-set_role :
      (o u : String) (role : Role) (ms : List Membership)
      → find_role o u ms ≡ none
      → find_role o u (set_role org user role ms) ≡ none
  find_role-set_role o u role [] h = refl
  find_role-set_role o u role (m ∷ ms) h = ground (arith, find_role-set_role o u role ms)

  pub set_role-IsKeyed :
      (role : Role) (ms : List Membership) → IsKeyed ms → IsKeyed (set_role org user role ms)
  set_role-IsKeyed role [] k = tt
  set_role-IsKeyed role (m ∷ ms) (fresh, k) = elim (Bool-cases (is_row org user m)) [
    | inl e ↦
        rw e
          (find_role-set_role m.organization_id m.user_id role ms fresh, set_role-IsKeyed role ms k)
    | inr e ↦
        rw e
          (find_role-set_role m.organization_id m.user_id role ms fresh, set_role-IsKeyed role ms k)
  ]

  find_role-delete :
      (o u : String) (ms : List Membership)
      → find_role o u ms ≡ none
      → find_role o u (delete (is_row org user) ms) ≡ none
  find_role-delete o u [] h = refl
  find_role-delete o u (m ∷ ms) h = ground (arith, find_role-delete o u ms)

  pub delete-IsKeyed : (ms : List Membership) → IsKeyed ms → IsKeyed (delete (is_row org user) ms)
  delete-IsKeyed [] k = tt
  delete-IsKeyed (m ∷ ms) (fresh, k) = elim (Bool-cases (is_row org user m)) [
    | inl e ↦ rw e (delete-IsKeyed ms k)
    | inr e ↦ rw e (find_role-delete m.organization_id m.user_id ms fresh, delete-IsKeyed ms k)
  ]

-- A row that joins at the end.
pub count-snoc-le {ℓ} :
    {A : Type ℓ} (p : A → Bool) (xs : List A) (x : A) → count p xs ≤ count p (xs ++ x ∷ [])
count-snoc-le p [] x = ground arith
count-snoc-le p (y ∷ xs) x = ground (arith, count-snoc-le p xs x)

find_role-snoc :
    (o u : String) (ms : List Membership) (m : Membership)
    → find_role o u ms ≡ none
    → is_row o u m ≡ false
    → find_role o u (ms ++ m ∷ []) ≡ none
find_role-snoc o u [] m h e = rw e
find_role-snoc o u (x ∷ ms) m h e = ground (arith, find_role-snoc o u ms m)

pub snoc-IsKeyed :
    (ms : List Membership) (m : Membership)
    → IsKeyed ms
    → find_role m.organization_id m.user_id ms ≡ none
    → IsKeyed (ms ++ m ∷ [])
snoc-IsKeyed [] m k h = (refl, tt)
snoc-IsKeyed (x ∷ ms) m (fresh, k) h = (
  find_role-snoc x.organization_id x.user_id ms m fresh (
      ground (
        arith,
        eq_iff m.organization_id x.organization_id,
        eq_iff x.organization_id m.organization_id,
        eq_iff m.user_id x.user_id,
        eq_iff x.user_id m.user_id,
      )),
  snoc-IsKeyed ms m k (ground arith),
)
