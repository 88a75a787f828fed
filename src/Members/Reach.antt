-- ===== src/Members/Reach.antt =====
-- Any sequence of operations on members and invites.
use hoglet.Members.Rows.{IsKeyed}
use hoglet.Members.{Role, Principal, Database, update_member_role, remove_member}
use hoglet.Members.Invites.{AcceptAccount, create_invite, revoke_invite, accept_invite}
use hoglet.Members.Owners.{
  Keeps, update_member_role-Keeps, Keeps-refl, remove_member-Keeps, accept_invite-Keeps,
}
use hoglet.Prelude.Int.{ℤ}
use hoglet.Prelude.{String, ◌≡◌, arith}

-- One operation, by anyone and with any arguments, whether it succeeds or not.
pub data Step : Database → Database → Type 0 where
  role_set :
      (db : Database) (principal : Principal) (org user : String) (role : Role)
      → Step db (update_member_role db principal org user role).0
  removed :
      (db : Database) (principal : Principal) (org user : String)
      → Step db (remove_member db principal org user).0
  invited :
      (db : Database) (principal : Principal) (org email : String) (role : Role) (now : ℤ)
      (id token_hash : String)
      → Step db (create_invite db principal org email role now id token_hash).0
  revoked :
      (db : Database) (principal : Principal) (org invite : String)
      → Step db (revoke_invite db principal org invite).0
  accepted :
      (db : Database) (token_hash : String) (account : AcceptAccount) (now now_ms : ℤ)
      (new_id : String)
      → Step db (accept_invite db token_hash account now now_ms new_id).0

pub data Reach (db : Database) : Database → Type 0 where
  here : Reach db db
  then_step : {mid after : Database} → Reach db mid → Step mid after → Reach db after

create_invite-members :
    (db : Database) (principal : Principal) (org email : String) (role : Role) (now : ℤ)
    (id token_hash : String)
    → (create_invite db principal org email role now id token_hash).0.organization_members
      ≡ db.organization_members
unfolding create_invite
create_invite-members db principal org email role now id token_hash = ground arith

revoke_invite-members :
    (db : Database) (principal : Principal) (org invite : String)
    → (revoke_invite db principal org invite).0.organization_members ≡ db.organization_members
unfolding revoke_invite
revoke_invite-members db principal org invite = ground arith

Step-Keeps :
    {db after : Database}
    → Step db after
    → IsKeyed db.organization_members
    → Keeps db.organization_members after.organization_members
Step-Keeps (role_set db principal org user role) k =
    update_member_role-Keeps db principal org user role k
Step-Keeps (removed db principal org user) k = remove_member-Keeps db principal org user k
Step-Keeps (invited db principal org email role now id token_hash) k =
    rw (create_invite-members db principal org email role now id token_hash)
      (Keeps-refl db.organization_members k)
Step-Keeps (revoked db principal org invite) k =
    rw (revoke_invite-members db principal org invite) (Keeps-refl db.organization_members k)
Step-Keeps (accepted db token_hash account now now_ms new_id) k =
    accept_invite-Keeps db token_hash account now now_ms new_id k

-- However members are promoted, demoted, removed, invited and accepted, an organization that has an
-- owner has one in every state that is reached, and no user has two rows in one organization.
pub Reach-Keeps :
    {db after : Database}
    → Reach db after
    → IsKeyed db.organization_members
    → Keeps db.organization_members after.organization_members
Reach-Keeps {db} here k = Keeps-refl db.organization_members k
Reach-Keeps (then_step r s) k =
    let before = Reach-Keeps r k in
    let last = Step-Keeps s before.keyed in
    record { keyed = last.keyed; owned = λ org h. last.owned org (before.owned org h) }
