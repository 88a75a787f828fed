-- ===== src/Members/Tests.antt =====
-- Tests of the operations on members, and instances of the theorems.
use hoglet.Members.Removal.{Revoked, remove_member-Revoked}
use hoglet.Members.Policy.{Permitted, update_member_role-Permitted}
use hoglet.Members.Owners.{Keeps}
use hoglet.Members.Rows.{IsKeyed}
use hoglet.Members.{
  Role, Principal, Membership, Database, owner, admin, member, session, access, conflict, forbidden,
  last_owner, update_member_role, remove_member,
}
use hoglet.Members.Reach.{Reach, here, then_step, role_set, removed, Reach-Keeps}
use hoglet.Prelude.Int.{pos}
use hoglet.Prelude.{String, ◌≡◌, refl, [], ◌∷◌, ok, err}

abbrev row : String → Role → Membership
row user role = record { organization_id = "o1"; user_id = user; role = role; joined_at = pos 0 }

abbrev start : Database
start = record {
  organization_members = row "ann" owner ∷ row "bob" admin ∷ row "cy" member ∷ [];
  users = [];
  organization_invites = [];
  auth_sessions = "ann" ∷ "cy" ∷ "cy" ∷ [];
  personal_api_keys = "cy" ∷ [];
}

abbrev ann : Principal
ann = record { user_id = "ann"; authentication = session }

abbrev bob : Principal
bob = record { user_id = "bob"; authentication = session }

-- The only owner cannot step down.
ann_stays : (update_member_role start ann "o1" "ann" member).1 ≡ err (conflict last_owner)
unfolding update_member_role
ann_stays = refl

admin_makes_no_owner : (update_member_role start bob "o1" "cy" owner).1 ≡ err (access forbidden)
unfolding update_member_role
admin_makes_no_owner = refl

cy_promoted : (update_member_role start bob "o1" "cy" admin).1 ≡ ok tt
unfolding update_member_role
cy_promoted = refl

cy_removed : (remove_member start bob "o1" "cy").1 ≡ ok tt
unfolding remove_member
cy_removed = refl

start-IsKeyed : IsKeyed start.organization_members
start-IsKeyed = (refl, (refl, (refl, tt)))

two_steps :
    Reach start (remove_member (update_member_role start ann "o1" "bob" owner).0 bob "o1" "ann").0
two_steps =
    then_step (then_step here (role_set start ann "o1" "bob" owner))
      (removed (update_member_role start ann "o1" "bob" owner).0 bob "o1" "ann")

Reach-Keeps_example :
    Keeps start.organization_members
      (remove_member
        (update_member_role start ann "o1" "bob" owner).0
        bob
        "o1"
        "ann").0.organization_members
Reach-Keeps_example = Reach-Keeps two_steps start-IsKeyed

update_member_role-Permitted_example :
    Permitted start (update_member_role start bob "o1" "cy" admin).0 bob "o1" "cy" admin
update_member_role-Permitted_example =
    update_member_role-Permitted start bob "o1" "cy" admin cy_promoted

remove_member-Revoked_example : Revoked (remove_member start bob "o1" "cy").0 bob "o1" "cy"
remove_member-Revoked_example = remove_member-Revoked start bob "o1" "cy" cy_removed
