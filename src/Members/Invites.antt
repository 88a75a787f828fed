-- ===== src/Members/Invites.antt =====
-- src/control_members.rs: inviting, revoking and accepting. `email` is what `normalize_email` returned.
use hoglet.Members.{
  Role, Principal, MemberError, Invite, User, Membership, Database, access, conflict, forbidden,
  not_found, already_member, too_many_invites, too_many_members, email_in_use, invalid_invite,
  delete, actor_role, commit, member_role, max_members, require_manager, count, require_session,
  is_owner, max_pending_invites, invite_ttl_seconds,
}
use hoglet.Prelude.Int.{ℤ, pos, ◌+ℤ◌, pos_part, neg_part}
use hoglet.Prelude.{
  ◌+◌, String, Bool, not, ◌&&◌, Option, none, some, List, [], ◌∷◌, ◌++◌, leb, if◌then◌else◌, ◌==◌,
  nat_eq, string_eq, any, Result, ok, err, ◌>>=◌, ◌>>◌, fail_if, ok_or, list_eq,
}

unfoldable pub le_time : ℤ → ℤ → Bool
le_time a b = leb (pos_part a + neg_part b) (pos_part b + neg_part a)

-- A member with this email.
abbrev pub is_email_of : String → List User → String → Bool
is_email_of email users user_id = any (λ (u : User). (u.id == user_id) && (u.email == email)) users

unfoldable pub has_member : Database → String → String → Bool
has_member db organization_id email =
    any
      (λ (m : Membership).
        (m.organization_id == organization_id) && is_email_of email db.users m.user_id)
      db.organization_members

-- The open invites of an organization without those that have expired and that of `email`.
unfoldable pub purge : String → String → ℤ → List Invite → List Invite
unfolding le_time
purge organization_id email now invites =
    delete (λ (i : Invite). (i.organization_id == organization_id) && (i.email == email))
      (delete (λ (i : Invite). (i.organization_id == organization_id) && le_time i.expires_at now)
        invites)

unfoldable pub invite_member :
    Database
    → Principal
    → String
    → String
    → Role
    → ℤ
    → String
    → String
    → Result Database MemberError
unfolding actor_role require_manager require_session has_member purge
invite_member db principal organization_id email role now id token_hash = do
  require_session principal
  actor ← actor_role db principal organization_id
  require_manager actor
  fail_if (is_owner role && not (is_owner actor)) (access forbidden)
  fail_if (has_member db organization_id email) (conflict already_member)
  let invites = purge organization_id email now db.organization_invites
  fail_if
      (leb max_pending_invites
        (count (λ (i : Invite). i.organization_id == organization_id) invites))
      (conflict too_many_invites)
  ok (record db {
    organization_invites =
        invites
        ++ record {
          id = id;
          organization_id = organization_id;
          email = email;
          role = role;
          token_hash = token_hash;
          created_by = principal.user_id;
          created_at = now;
          expires_at = now +ℤ pos invite_ttl_seconds;
        }
          ∷ [];
  })

unfoldable pub create_invite :
    Database
    → Principal
    → String
    → String
    → Role
    → ℤ
    → String
    → String
    → Database × Result (Unit {0}) MemberError
unfolding invite_member
create_invite db principal organization_id email role now id token_hash =
    commit db (invite_member db principal organization_id email role now id token_hash)

abbrev pub find_invite : (Invite → Bool) → List Invite → Option Invite
find_invite p [] = none
find_invite p (i ∷ is) = let rest = find_invite p is in if p i then some i else rest

unfoldable pub revoke : Database → Principal → String → String → Result Database MemberError
unfolding actor_role require_manager require_session
revoke db principal organization_id invite_id = do
  require_session principal
  actor ← actor_role db principal organization_id
  require_manager actor
  let is_it = λ (i : Invite). (i.id == invite_id) && (i.organization_id == organization_id)
  invite ← ok_or (find_invite is_it db.organization_invites) (access not_found)
  fail_if (is_owner invite.role && not (is_owner actor)) (access forbidden)
  ok (record db { organization_invites = delete is_it db.organization_invites })

unfoldable pub revoke_invite :
    Database → Principal → String → String → Database × Result (Unit {0}) MemberError
unfolding revoke
revoke_invite db principal organization_id invite_id =
    commit db (revoke db principal organization_id invite_id)

pub data AcceptAccount : Type 0 where
  existing : String → AcceptAccount
  new : String → String → AcceptAccount

-- The account that accepts, with the users after it: a new one gets the id `new_id`.
unfoldable pub account_for :
    List User → String → AcceptAccount → ℤ → String → Result (String × List User) MemberError
account_for users email (existing user_id) now_ms new_id =
    if is_email_of email users user_id then ok (user_id, users) else err invalid_invite
account_for users email (new name password_hash) now_ms new_id =
    if any (λ (u : User). u.email == email) users
    then err (conflict email_in_use)
    else ok (
      new_id,
      users
          ++ record {
            id = new_id;
            email = email;
            password_hash = password_hash;
            name = name;
            created_at = now_ms;
          }
            ∷ [],
    )

abbrev pub without_invite : String → List Invite → List Invite
without_invite id = delete (λ (i : Invite). i.id == id)

-- A member already: the invite goes, and the rest is committed as it is.
unfoldable pub join :
    Database → Invite → String → List User → ℤ → Database × Result (Unit {0}) MemberError
unfolding member_role
join db invite user_id users now =
    let cleared = record db {
      users = users;
      organization_invites = without_invite invite.id db.organization_invites;
    } in
    elim (member_role db invite.organization_id user_id) [
      | some _ ↦ (cleared, err (conflict already_member))
      | none ↦ (
        record cleared {
          organization_members =
              db.organization_members
              ++ record {
                organization_id = invite.organization_id;
                user_id = user_id;
                role = invite.role;
                joined_at = now;
              }
                ∷ [];
        },
        ok tt,
      )
    ]

-- What is checked of an invite and an account before anything is written.
unfoldable pub check_invite :
    Database
    → String
    → AcceptAccount
    → ℤ
    → ℤ
    → String
    → Result (Invite × String × List User) MemberError
unfolding account_for le_time
check_invite db token_hash account now now_ms new_id = do
  invite ←
      ok_or (find_invite (λ (i : Invite). i.token_hash == token_hash) db.organization_invites)
        invalid_invite
  fail_if (le_time invite.expires_at now) invalid_invite
  fail_if
      (leb max_members (
        count (λ (m : Membership). m.organization_id == invite.organization_id)
          db.organization_members))
      (conflict too_many_members)
  found ← account_for db.users invite.email account now_ms new_id
  ok (invite, found.0, found.1)

-- `accept_invite`, up to the session that it starts.
unfoldable pub accept_invite :
    Database → String → AcceptAccount → ℤ → ℤ → String → Database × Result (Unit {0}) MemberError
unfolding check_invite join
accept_invite db token_hash account now now_ms new_id =
    elim (check_invite db token_hash account now now_ms new_id) [
      | err e ↦ (db, err e)
      | ok (invite, user_id, users) ↦ join db invite user_id users now
    ]
