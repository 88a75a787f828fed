-- ===== src/Members/Owners.antt =====
-- An organization that has an owner keeps one, whatever is done to its members and invites.
use hoglet.Members.Rows.{
  IsKeyed, set_role-IsKeyed, other_owners, others-set_role, delete-IsKeyed, owners_le,
  elsewhere-set_role, others-delete, elsewhere-delete, snoc-IsKeyed, count-snoc-le,
}
use hoglet.Members.{
  Role, Principal, Membership, Database, Invite, User, check_last_owner, find_role, change_role,
  count, set_role, delete, may_change, is_owner_of, is_row, role_eq, update_member_role, leave,
  remove_member, member_role,
}
use hoglet.Members.Invites.{AcceptAccount, join, accept_invite, check_invite}
use hoglet.Prelude.Int.{ℤ}
use hoglet.Prelude.{
  ◌≤◌, String, ◌≡◌, ◌⊎◌, inl, inr, true, some, List, arith, eq_iff, Bool-cases, Option-cases, ◌==◌,
  nat_eq, string_eq, Result-cases, ok, list_eq, Result-cases,
}

-- What is kept from one table of members to the next.
pub record Keeps (before after : List Membership) : Type 0 where
  pub keyed : IsKeyed after
  pub owned :
      (org : String) → 1 ≤ count (is_owner_of org) before → 1 ≤ count (is_owner_of org) after

pub Keeps-refl : (ms : List Membership) → IsKeyed ms → Keeps ms ms
Keeps-refl ms k = record { keyed = k; owned = λ org h. h }

-- The guard leaves another owner.
check_last_owner-others :
    (db : Database) (org user : String) (target : Role)
    → check_last_owner db org target ≡ ok tt
    → find_role org user db.organization_members ≡ some target
    → IsKeyed db.organization_members
    → 1 ≤ count (is_owner_of org) db.organization_members
    → 1 ≤ other_owners org user db.organization_members
unfolding check_last_owner
check_last_owner-others db org user target h found k some_owner =
    ground (arith, owners_le org user db.organization_members target k found)

module _ (db : Database) (org user : String) (target : Role)
    (guarded : check_last_owner db org target ≡ ok tt)
    (found : find_role org user db.organization_members ≡ some target)
    (keyed : IsKeyed db.organization_members) where
  set_role-Keeps :
      (role : Role) → Keeps db.organization_members (set_role org user role db.organization_members)
  set_role-Keeps role = record {
    keyed = set_role-IsKeyed org user role db.organization_members keyed;
    owned = λ there h. elim (Bool-cases (org == there)) [
      | inl same ↦
          let here = (eq_iff org there).0 same in
          let left = check_last_owner-others db org user target guarded found keyed (rw here h) in
          rw (← here) (omega (arith, others-set_role org user db.organization_members role, left))
      | inr apart ↦ rw (elsewhere-set_role org user there db.organization_members role apart) h
    ];
  }

  delete-Keeps : Keeps db.organization_members (delete (is_row org user) db.organization_members)
  delete-Keeps = record {
    keyed = delete-IsKeyed org user db.organization_members keyed;
    owned = λ there h. elim (Bool-cases (org == there)) [
      | inl same ↦
          let here = (eq_iff org there).0 same in
          let left = check_last_owner-others db org user target guarded found keyed (rw here h) in
          rw (← here) (omega (arith, others-delete org user db.organization_members, left))
      | inr apart ↦ rw (elsewhere-delete org user there db.organization_members apart) h
    ];
  }

-- What a change of role that succeeds has checked.
pub record Changed (db after : Database) (principal : Principal) (org user : String) (role : Role)
    : Type 0 where
  pub actor : Role
  pub target : Role
  pub acts : find_role org principal.user_id db.organization_members ≡ some actor
  pub found : find_role org user db.organization_members ≡ some target
  pub allowed : may_change actor target (some role) ≡ true
  pub effect :
      ((role_eq target role ≡ true) × (after ≡ db))
      ⊎ ((check_last_owner db org target ≡ ok tt)
          × (after ≡ record db {
            organization_members = set_role org user role db.organization_members;
          }))

pub change_role-Changed :
    (db after : Database) (principal : Principal) (org user : String) (role : Role)
    → change_role db principal org user role ≡ ok after
    → Changed db after principal org user role
unfolding change_role
change_role-Changed db after principal org user role h =
    elim (Option-cases (find_role org principal.user_id db.organization_members)) [
      | inl e ↦ absurd (ground arith)
      | inr (actor, e) ↦ elim (Option-cases (find_role org user db.organization_members)) [
        | inl f ↦ absurd (ground arith)
        | inr (target, f) ↦ record {
          actor = actor;
          target = target;
          acts = e;
          found = f;
          allowed = ground arith;
          effect = elim (Bool-cases (role_eq target role)) [
            | inl same ↦ inl (same, ground arith)
            | inr differs ↦ inr (ground arith, ground arith)
          ];
        }
      ]
    ]

pub update_member_role-Keeps :
    (db : Database) (principal : Principal) (org user : String) (role : Role)
    → IsKeyed db.organization_members
    → Keeps db.organization_members
        (update_member_role db principal org user role).0.organization_members
unfolding update_member_role
update_member_role-Keeps db principal org user role k =
    elim (Result-cases (change_role db principal org user role)) [
      | inr (e, failed) ↦ rw failed (Keeps-refl db.organization_members k)
      | inl (after, done) ↦
          let c = change_role-Changed db after principal org user role done in
          rw done (elim c.effect [
            | inl (_, same) ↦ rw same (Keeps-refl db.organization_members k)
            | inr (guarded, written) ↦
                rw written (set_role-Keeps db org user c.target guarded c.found k role)
          ])
    ]

leave-target :
    (db after : Database) (principal : Principal) (org user : String)
    → leave db principal org user ≡ ok after
    → (target : Role) × (find_role org user db.organization_members ≡ some target)
      × (check_last_owner db org target ≡ ok tt)
      × (after.organization_members ≡ delete (is_row org user) db.organization_members)
unfolding leave
leave-target db after principal org user h =
    elim (Option-cases (find_role org user db.organization_members)) [
      | inl f ↦ absurd (ground arith)
      | inr (target, f) ↦ (target, f, ground arith, ground arith)
    ]

pub remove_member-Keeps :
    (db : Database) (principal : Principal) (org user : String)
    → IsKeyed db.organization_members
    → Keeps db.organization_members (remove_member db principal org user).0.organization_members
unfolding remove_member
remove_member-Keeps db principal org user k = elim (Result-cases (leave db principal org user)) [
  | inr (e, failed) ↦ rw failed (Keeps-refl db.organization_members k)
  | inl (after, done) ↦
      let (target, found, guarded, written) = leave-target db after principal org user done in
      rw (done, written) (delete-Keeps db org user target guarded found k)
]

join-Keeps :
    (db : Database) (invite : Invite) (user : String) (users : List User) (now : ℤ)
    → IsKeyed db.organization_members
    → Keeps db.organization_members (join db invite user users now).0.organization_members
unfolding join
join-Keeps db invite user users now k =
    elim (Option-cases (member_role db invite.organization_id user)) [
      | inr (role, e) ↦ rw (join, e) (Keeps-refl db.organization_members k)
      | inl e ↦
          rw (join, e)
            (record {
              keyed = snoc-IsKeyed db.organization_members _ k (unfold member_role in e);
              owned =
                  λ org h. omega (arith, count-snoc-le (is_owner_of org) db.organization_members _);
            })
    ]

pub accept_invite-Keeps :
    (db : Database) (token_hash : String) (account : AcceptAccount) (now now_ms : ℤ)
    (new_id : String)
    → IsKeyed db.organization_members
    → Keeps db.organization_members
        (accept_invite db token_hash account now now_ms new_id).0.organization_members
unfolding accept_invite
accept_invite-Keeps db token_hash account now now_ms new_id k =
    elim (Result-cases (check_invite db token_hash account now now_ms new_id)) [
      | inr (e, failed) ↦ rw (accept_invite, failed) (Keeps-refl db.organization_members k)
      | inl ((invite, user, users), done) ↦
          rw (accept_invite, done) (join-Keeps db invite user users now k)
    ]
