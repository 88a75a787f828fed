-- ===== src/Members/Policy.antt =====
-- Who may change whom, and what a change leaves alone.
use hoglet.Members.Owners.{change_role-Changed}
use hoglet.Members.{
  Role, Principal, Membership, Database, owner, admin, member, session, find_role, member_role,
  role_eq, may_change, set_role, is_owner, change_role, update_member_role,
}
use hoglet.Prelude.{
  String, ◌≡◌, refl, ◌⊎◌, inl, inr, true, false, ◌&&◌, some, List, [], ◌∷◌, arith, eq_iff, ◌==◌,
  nat_eq, string_eq, Result-cases, ok, list_eq, Result-cases,
}

find_role-set_role_self :
    (org user : String) (role : Role) (ms : List Membership) (old : Role)
    → find_role org user ms ≡ some old
    → find_role org user (set_role org user role ms) ≡ some role
find_role-set_role_self org user role [] old h = absurd (cc)
find_role-set_role_self org user role (m ∷ ms) old h =
    ground (arith, find_role-set_role_self org user role ms old)

find_role-set_role_other :
    (org user o u : String) (role : Role) (ms : List Membership)
    → ((o == org) && (u == user)) ≡ false
    → find_role o u (set_role org user role ms) ≡ find_role o u ms
find_role-set_role_other org user o u role [] h = refl
find_role-set_role_other org user o u role (m ∷ ms) h = ground (
  arith,
  find_role-set_role_other org user o u role ms h,
  eq_iff m.organization_id org,
  eq_iff m.organization_id o,
  eq_iff m.user_id user,
  eq_iff m.user_id u,
  eq_iff o org,
  eq_iff u user,
)

-- A change of role that was made by `principal`.
pub record Permitted (db after : Database) (principal : Principal) (org user : String) (role : Role)
    : Type 0 where
  pub actor : Role
  pub target : Role
  pub in_session : principal.authentication ≡ session
  pub acts : member_role db org principal.user_id ≡ some actor
  pub was : member_role db org user ≡ some target
  pub is_now : member_role after org user ≡ some role
  pub permitted :
      (actor ≡ owner) ⊎ ((actor ≡ admin) × (is_owner target ≡ false) × (is_owner role ≡ false))
  pub others :
      (o u : String)
      → ((o == org) && (u == user)) ≡ false
      → member_role after o u ≡ member_role db o u
  pub sessions : after.auth_sessions ≡ db.auth_sessions

role_eq_sound : (a b : Role) → role_eq a b ≡ true → a ≡ b
role_eq_sound a b h = ground arith

permitted_by :
    (actor target role : Role)
    → may_change actor target (some role) ≡ true
    → (actor ≡ owner) ⊎ ((actor ≡ admin) × (is_owner target ≡ false) × (is_owner role ≡ false))
unfolding may_change
permitted_by owner target role h = inl refl
permitted_by admin target role h = inr (refl, ground arith, ground arith)
permitted_by member target role h = absurd (cc)

change_role-session :
    (db after : Database) (principal : Principal) (org user : String) (role : Role)
    → change_role db principal org user role ≡ ok after
    → principal.authentication ≡ session
unfolding change_role
change_role-session db after principal org user role h = ground arith

-- The state behind a change of role that committed.
change_role-Permitted :
    (db after : Database) (principal : Principal) (org user : String) (role : Role)
    → change_role db principal org user role ≡ ok after
    → Permitted db after principal org user role
unfolding member_role change_role
change_role-Permitted db after principal org user role h =
    let c = change_role-Changed db after principal org user role h in
    record {
      actor = c.actor;
      target = c.target;
      in_session = change_role-session db after principal org user role h;
      acts = c.acts;
      was = c.found;
      is_now = elim c.effect [
        | inl (same_role, same) ↦
            let kept = role_eq_sound c.target role same_role in rw (same, ← kept) c.found
        | inr (_, written) ↦
            rw written
              (find_role-set_role_self org user role db.organization_members c.target c.found)
      ];
      permitted = permitted_by c.actor c.target role c.allowed;
      others = λ o u apart. elim c.effect [
        | inl (_, same) ↦ rw same
        | inr (_, written) ↦
            rw written (find_role-set_role_other org user o u role db.organization_members apart)
      ];
      sessions = elim c.effect [ inl (_, same) ↦ rw same | inr (_, written) ↦ rw written ];
    }

-- A change of role that succeeds was made in a session, by an owner of the organization, or by an admin
-- when neither the old role nor the new one is that of an owner. The member has the new role
-- afterwards, and every other membership is what it was.
pub update_member_role-Permitted :
    (db : Database) (principal : Principal) (org user : String) (role : Role)
    → (update_member_role db principal org user role).1 ≡ ok tt
    → Permitted db (update_member_role db principal org user role).0 principal org user role
unfolding update_member_role
update_member_role-Permitted db principal org user role h =
    elim (Result-cases (change_role db principal org user role)) [
      | inl (after, done) ↦ rw done (change_role-Permitted db after principal org user role done)
      | inr (e, failed) ↦ absurd (ground arith)
    ]
