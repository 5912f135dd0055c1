-- ===== src/Tests/Membership.antt =====
-- Members, roles and invitations of the small team.
use multi_tenant_project_man.Base.{◌≡◌, ◌⊎◌, ◌≢◌, refl, some, none, false, Bool-cases}
use multi_tenant_project_man.Base.Monad.{ok, err}
use multi_tenant_project_man.Base.Error.{app, not_found, bad_request}
use multi_tenant_project_man.Prisma.Rows.Client.{
  rows, create, update, update_many, delete_many, store_or, store_if, update_if, or_same,
}
use multi_tenant_project_man.Prisma.Rows.Lists.{first, find, check, fits, change, change_many}
use multi_tenant_project_man.Schema.{
  owner, viewer, member, pending, invalidated, OrganizationMember, OrganizationInvitation,
  members_model, invitations_model,
}
use multi_tenant_project_man.Organizations.Repository.{
  find_member, find_invitation_by_token_hash, remove_member, find_user_by_email,
  find_invitation_by_id, find_user_membership, update_invitation,
}
use multi_tenant_project_man.Organizations.Transactions.{
  accept_invitation_transaction, accept_invitation_steps, user_to_join, refuse_membership, join,
  create_member, invalidate_others, require_acceptable, refuse_expired,
}
use multi_tenant_project_man.Organizations.Members.{update_role, remove}
use multi_tenant_project_man.Organizations.Roles.{
  update_role_allowed, update_role_refused, owner-update_role, may_change,
}
use multi_tenant_project_man.Organizations.Accept.{
  accept_invitation, Draws, Accepted, AcceptInput, Caller, find_by_token, check_recipient, admit,
  open_session,
}
use multi_tenant_project_man.Organizations.Joining.{
  joins, first_membership, used_once, closes_others,
}
use multi_tenant_project_man.World.{World}
use multi_tenant_project_man.Sessions.{create_refresh_session}
use multi_tenant_project_man.Tokens.{generate_access_token, generate_refresh_token}
use multi_tenant_project_man.Tests.Data.{
  team, ann, bob, rt, invitation, other_invitation, context, user,
}

found_bob : find_member "o1" "u2" team ≡ some bob
unfolding find_member first
found_bob = refl

update_role_allowed_example :
    (update_role "o1" "u2" viewer (some owner) team).0 ≡ ok (record bob { role = viewer })
update_role_allowed_example =
    (update_role_allowed {db = rows} "o1" "u2" viewer (some owner) team bob found_bob refl).0

abbrev draws : Draws
draws = record {
  salt = "salt";
  user_id = "u9";
  member_id = "m3";
  session_id = "s2";
  token_id = "t2";
  jti = "j2";
}

abbrev input : AcceptInput
input = record { name = none; password = none }

abbrev cy_calling : Caller
cy_calling = record { id = "u3"; email = "cy@x.io" }

abbrev cy : OrganizationMember
cy = record { id = "m3"; organization_id = "o1"; user_id = "u3"; role = member }

abbrev accepted_by_cy : Accepted
accepted_by_cy = record {
  user = user "u3" "Cy" "cy@x.io" (some "ABCDEFGH") false;
  member = cy;
  access_token = "access-j2";
  refresh_token = "refresh-t2";
}

abbrev team_of_three : World rows
team_of_three =
    (accept_invitation rt 1000 draws "secret-link" input context (some cy_calling) team).1

success :
    accept_invitation rt 1000 draws "secret-link" input context (some cy_calling) team
    ≡ (ok accepted_by_cy, team_of_three)
unfolding accept_invitation find_by_token find_invitation_by_token_hash require_acceptable
    refuse_expired find_user_by_email check_recipient admit accept_invitation_transaction
    accept_invitation_steps find_invitation_by_id user_to_join find_user_membership
    refuse_membership join create_member update_invitation invalidate_others open_session
    create_refresh_session generate_access_token generate_refresh_token create update update_if
    update_many or_same store_or store_if Bool-cases first find check fits change change_many
success = refl

found_invitation : find_invitation_by_token_hash "secret-link" team ≡ some invitation
unfolding find_invitation_by_token_hash first
found_invitation = refl

found_cy : find_member "o1" "u3" team ≡ none
unfolding find_member first
found_cy = refl

owner_row : rows.find_id members_model "m1" team.members ≡ some ann
unfolding find
owner_row = refl

admin_row : rows.find_id members_model "m2" team.members ≡ some bob
unfolding find
admin_row = refl

not_there :
    (update_role "o1" "u3" viewer (some owner) team).0 ≡ err (app (not_found "MEMBER_NOT_FOUND"))
unfolding update_role find_member first
not_there = refl

update_role_refused_example :
    (find_member "o1" "u3" team ≡ none)
    ⊎ ((t : OrganizationMember) × (find_member "o1" "u3" team ≡ some t)
        × (may_change t.role viewer (some owner) ≡ false))
update_role_refused_example =
    (update_role_refused {db = rows} "o1" "u3" viewer (some owner) team
      (app (not_found "MEMBER_NOT_FOUND")) not_there).0

abbrev team_without_bob : World rows
team_without_bob = (remove "o1" "u2" (some owner) team).1

removed : remove "o1" "u2" (some owner) team ≡ (ok tt, team_without_bob)
unfolding remove remove_member find_member first delete_many
removed = refl

owner-update_role_example :
    rows.find_id members_model "m1" (update_role "o1" "u2" viewer (some owner) team).1.members
    ≡ some ann
owner-update_role_example =
    owner-update_role {db = rows} "o1" "u2" viewer (some owner) team "m1" ann owner_row refl

joins_example : rows.find_id members_model "m3" team_of_three.members ≡ some cy
joins_example =
    (joins {db = rows} rt 1000 draws input context team team_of_three accepted_by_cy "secret-link"
      (some cy_calling) success invitation found_invitation).6

used_once_example :
    accept_invitation rt 1001 draws "secret-link" input context (some cy_calling) team_of_three
    ≡ (err (app (bad_request "INVITATION_ALREADY_ACCEPTED")), team_of_three)
used_once_example =
    used_once {db = rows} rt 1000 draws input context team team_of_three accepted_by_cy
      "secret-link" (some cy_calling) success invitation team_of_three 1001 draws input context
      (some cy_calling) found_invitation refl

first_membership_example : ann.user_id ≢ cy.user_id
first_membership_example =
    first_membership {db = rows} rt 1000 draws input context team team_of_three accepted_by_cy
      "secret-link" (some cy_calling) success "m1" ann owner_row

abbrev invalidated_invitation : OrganizationInvitation
invalidated_invitation = record other_invitation { status = invalidated }

closed : rows.find_id invitations_model "i2" team_of_three.invitations ≡ some invalidated_invitation
unfolding accept_invitation find_by_token find_invitation_by_token_hash require_acceptable
    refuse_expired find_user_by_email check_recipient admit accept_invitation_transaction
    accept_invitation_steps find_invitation_by_id user_to_join find_user_membership
    refuse_membership join create_member update_invitation invalidate_others open_session
    create_refresh_session generate_access_token generate_refresh_token create update update_if
    update_many or_same store_or store_if Bool-cases first find check fits change change_many
closed = refl

closes_others_example : invalidated ≢ pending
closes_others_example =
    closes_others {db = rows} rt 1000 draws input context team team_of_three accepted_by_cy
      "secret-link" (some cy_calling) success invitation invalidated_invitation "i2"
      found_invitation closed refl
