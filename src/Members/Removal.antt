-- ===== src/Members/Removal.antt =====
-- What a removal takes away.
use hoglet.Members.{
  Principal, Membership, Database, find_role, count, member_role, without_member, leave,
  remove_member, delete, is_row,
}
use hoglet.Prelude.{
  ℕ, String, ◌≡◌, refl, inl, inr, Bool, false, none, List, [], ◌∷◌, arith, ◌==◌, nat_eq, string_eq,
  Result-cases, ok, list_eq, Result-cases,
}

find_role-delete_self :
    (org user : String) (ms : List Membership)
    → find_role org user (delete (is_row org user) ms) ≡ none
find_role-delete_self org user [] = refl
find_role-delete_self org user (m ∷ ms) = ground (arith, find_role-delete_self org user ms)

count-delete {ℓ} : {A : Type ℓ} (p : A → Bool) (xs : List A) → count p (delete p xs) ≡ 0
count-delete p [] = refl
count-delete p (x ∷ xs) = ground (arith, count-delete p xs)

-- The rows that name a user.
abbrev pub rows_of : String → List String → ℕ
rows_of user = count (λ u. u == user)

abbrev pub memberships_of : Database → String → ℕ
memberships_of db user = count (λ (m : Membership). m.user_id == user) db.organization_members

-- The state behind a removal by `principal`.
pub record Revoked (after : Database) (principal : Principal) (org user : String) : Type 0 where
  pub gone : member_role after org user ≡ none
  pub signed_out : (principal.user_id == user) ≡ false → rows_of user after.auth_sessions ≡ 0
  pub sessions : memberships_of after user ≡ 0 → rows_of user after.auth_sessions ≡ 0
  pub keys : memberships_of after user ≡ 0 → rows_of user after.personal_api_keys ≡ 0

without_member-Revoked :
    (db : Database) (principal : Principal) (org user : String)
    → Revoked (without_member db org user (principal.user_id == user)) principal org user
unfolding without_member member_role
without_member-Revoked db principal org user =
    let none_left = count-delete (λ u. u == user) db.auth_sessions in
    let no_keys = count-delete (λ u. u == user) db.personal_api_keys in
    record {
      gone = find_role-delete_self org user db.organization_members;
      signed_out = λ other. ground (arith, none_left);
      sessions = λ h. ground (arith, none_left);
      keys = λ h. ground (arith, no_keys);
    }

leave-eq :
    (db after : Database) (principal : Principal) (org user : String)
    → leave db principal org user ≡ ok after
    → after ≡ without_member db org user (principal.user_id == user)
unfolding leave
leave-eq db after principal org user h = ground arith

-- A member who was removed has no role in the organization any more. Removed by somebody else, they
-- have no session left; without a membership in any organization, they have neither session nor
-- personal key left.
pub remove_member-Revoked :
    (db : Database) (principal : Principal) (org user : String)
    → (remove_member db principal org user).1 ≡ ok tt
    → Revoked (remove_member db principal org user).0 principal org user
unfolding remove_member
remove_member-Revoked db principal org user h = elim (Result-cases (leave db principal org user)) [
  | inl (after, done) ↦
      rw (done, leave-eq db after principal org user done)
        (without_member-Revoked db principal org user)
  | inr (e, failed) ↦ absurd (ground arith)
]
