-- ===== src/Members.antt =====
-- src/control_members.rs: who belongs to an organization and in which role. An operation is a
-- transaction: it returns the database, which is as before when the transaction is not committed, and a
-- result. The clock, new ids, secrets and hashes are arguments. The column `role` holds one of the three
-- roles by its CHECK constraint, a membership has its user by its foreign key, and the statements of
-- SQLite succeed. The row that `update_member_role` reads back and returns is left out, with the texts of
-- answers and the audit lines.
pub mod Invites
pub mod Rows
pub mod Owners
pub mod Reach
pub mod Policy
pub mod Removal
mod Tests
use hoglet.Prelude.Int.{ℤ}
use hoglet.Prelude.{
  ℕ, suc, ◌*◌, String, Bool, true, false, not, ◌&&◌, ◌||◌, Option, none, some, List, [], ◌∷◌, leb,
  if◌then◌else◌, ◌==◌, nat_eq, string_eq, Result, ok, err, ◌>>=◌, ◌>>◌, fail_if, ok_or, list_eq,
}

pub data Role : Type 0 where
  owner admin member : Role

pub data Authentication : Type 0 where
  session personal_key : Authentication

pub record Principal : Type 0 where
  pub user_id : String
  pub authentication : Authentication

pub data AccessError : Type 0 where
  forbidden not_found : AccessError

pub data Conflict : Type 0 where
  last_owner already_member too_many_invites too_many_members email_in_use : Conflict

pub data MemberError : Type 0 where
  access : AccessError → MemberError
  conflict : Conflict → MemberError
  invalid_invite : MemberError

pub record Membership : Type 0 where
  pub organization_id : String
  pub user_id : String
  pub role : Role
  pub joined_at : ℤ

pub record User : Type 0 where
  pub id : String
  pub email : String
  pub password_hash : String
  pub name : String
  pub created_at : ℤ

pub record Invite : Type 0 where
  pub id : String
  pub organization_id : String
  pub email : String
  pub role : Role
  pub token_hash : String
  pub created_by : String
  pub created_at : ℤ
  pub expires_at : ℤ

-- The tables. `auth_sessions` and `personal_api_keys` have the users of their rows.
pub record Database : Type 0 where
  pub organization_members : List Membership
  pub users : List User
  pub organization_invites : List Invite
  pub auth_sessions : List String
  pub personal_api_keys : List String

abbrev pub max_pending_invites : ℕ
max_pending_invites = 100

abbrev pub max_members : ℕ
max_members = 500

abbrev pub invite_ttl_seconds : ℕ
invite_ttl_seconds = 7 * 24 * 60 * 60

abbrev pub role_eq : Role → Role → Bool
role_eq owner owner = true
role_eq admin admin = true
role_eq member member = true
role_eq _ _ = false

abbrev pub is_owner : Role → Bool
is_owner r = role_eq r owner

-- Whether `actor` may change a member who is `target` to `new_role`, or remove it at `none`.
unfoldable pub may_change : Role → Role → Option Role → Bool
may_change owner target new_role = true
may_change admin target none = not (is_owner target)
may_change admin target (some new_role) = not (is_owner target) && not (is_owner new_role)
may_change member target new_role = false

abbrev pub is_row : String → String → Membership → Bool
is_row organization_id user_id m = (m.organization_id == organization_id) && (m.user_id == user_id)

abbrev pub find_role : String → String → List Membership → Option Role
find_role organization_id user_id [] = none
find_role organization_id user_id (m ∷ ms) =
    let rest = find_role organization_id user_id ms in
    if is_row organization_id user_id m then some m.role else rest

unfoldable pub member_role : Database → String → String → Option Role
member_role db organization_id user_id = find_role organization_id user_id db.organization_members

unfoldable pub actor_role : Database → Principal → String → Result Role MemberError
unfolding member_role
actor_role db principal organization_id =
    ok_or (member_role db organization_id principal.user_id) (access forbidden)

unfoldable pub require_manager : Role → Result (Unit {0}) MemberError
require_manager owner = ok tt
require_manager admin = ok tt
require_manager member = err (access forbidden)

unfoldable pub require_session : Principal → Result (Unit {0}) MemberError
require_session principal = elim principal.authentication [
  | session ↦ ok tt
  | personal_key ↦ err (access forbidden)
]

-- `SELECT count(*) … WHERE`.
abbrev pub count {ℓ} : {A : Type ℓ} → (A → Bool) → List A → ℕ
count p [] = 0
count p (x ∷ xs) = let rest = count p xs in if p x then suc rest else rest

-- `DELETE … WHERE`.
abbrev pub delete {ℓ} : {A : Type ℓ} → (A → Bool) → List A → List A
delete p [] = []
delete p (x ∷ xs) = let rest = delete p xs in if p x then rest else x ∷ rest

abbrev pub is_owner_of : String → Membership → Bool
is_owner_of organization_id m = (m.organization_id == organization_id) && is_owner m.role

unfoldable pub owner_count : Database → String → ℕ
owner_count db organization_id = count (is_owner_of organization_id) db.organization_members

-- `UPDATE organization_members SET role`.
abbrev pub set_role : String → String → Role → List Membership → List Membership
set_role organization_id user_id role [] = []
set_role organization_id user_id role (m ∷ ms) =
    (if is_row organization_id user_id m then record m { role = role } else m)
    ∷ set_role organization_id user_id role ms

-- Whether the organization is left without an owner when a member who is `target` stops being one.
unfoldable pub check_last_owner : Database → String → Role → Result (Unit {0}) MemberError
unfolding owner_count
check_last_owner db organization_id target =
    fail_if (is_owner target && leb (owner_count db organization_id) 1) (conflict last_owner)

-- The transaction commits when it succeeds; it returns what it commits.
abbrev pub commit :
    Database → Result Database MemberError → Database × Result (Unit {0}) MemberError
commit db (ok after) = (after, ok tt)
commit db (err e) = (db, err e)

unfoldable pub change_role :
    Database → Principal → String → String → Role → Result Database MemberError
unfolding actor_role require_manager require_session may_change check_last_owner
change_role db principal organization_id user_id new_role = do
  require_session principal
  actor ← actor_role db principal organization_id
  require_manager actor
  target ← ok_or (member_role db organization_id user_id) (access not_found)
  fail_if (not (may_change actor target (some new_role))) (access forbidden)
  if role_eq target new_role
      then ok db
      else (check_last_owner db organization_id target >>= λ _. ok (record db {
        organization_members = set_role organization_id user_id new_role db.organization_members;
      }))

unfoldable pub update_member_role :
    Database → Principal → String → String → Role → Database × Result (Unit {0}) MemberError
unfolding change_role
update_member_role db principal organization_id user_id new_role =
    commit db (change_role db principal organization_id user_id new_role)

-- The rows that go with a member who is removed.
unfoldable pub without_member : Database → String → String → Bool → Database
without_member db organization_id user_id leaving =
    let members = delete (is_row organization_id user_id) db.organization_members in
    let remaining = count (λ (m : Membership). m.user_id == user_id) members in
    record db {
      organization_members = members;
      auth_sessions =
          if not leaving || (remaining == 0)
          then delete (λ u. u == user_id) db.auth_sessions
          else db.auth_sessions;
      personal_api_keys =
          if remaining == 0
          then delete (λ u. u == user_id) db.personal_api_keys
          else db.personal_api_keys;
    }

unfoldable pub leave : Database → Principal → String → String → Result Database MemberError
unfolding actor_role require_manager require_session may_change check_last_owner without_member
leave db principal organization_id user_id = do
  require_session principal
  actor ← actor_role db principal organization_id
  let leaving = principal.user_id == user_id
  (if leaving then ok tt else require_manager actor)
  target ← ok_or (member_role db organization_id user_id) (access not_found)
  fail_if (not leaving && not (may_change actor target none)) (access forbidden)
  check_last_owner db organization_id target
  ok (without_member db organization_id user_id leaving)

unfoldable pub remove_member :
    Database → Principal → String → String → Database × Result (Unit {0}) MemberError
unfolding leave
remove_member db principal organization_id user_id =
    commit db (leave db principal organization_id user_id)
