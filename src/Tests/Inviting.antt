-- ===== src/Tests/Inviting.antt =====
-- Invitations of the small team that are sent, resent and revoked.
use multi_tenant_project_man.Base.{◌≡◌, ◌≢◌, refl, some, none, false, Bool-cases}
use multi_tenant_project_man.Base.Monad.{ok}
use multi_tenant_project_man.Prisma.Rows.Client.{
  rows, create, update, store_or, store_if, update_if,
}
use multi_tenant_project_man.Prisma.Rows.Lists.{first, find, check, fits, change}
use multi_tenant_project_man.Schema.{viewer, invitations_model}
use multi_tenant_project_man.World.{World}
use multi_tenant_project_man.Organizations.Repository.{
  find_by_id, find_user_by_email, find_invitation_by_id, update_invitation,
}
use multi_tenant_project_man.Organizations.Transactions.{create_invitation, find_pending_invitation}
use multi_tenant_project_man.Organizations.Invitations.{
  AddMemberInput, PendingMember, pending_member, renew_or_create, refuse_joined, add_member,
  find_open, resend_invitation, revoke_invitation,
}
use multi_tenant_project_man.Organizations.Inviting.{invites}
use multi_tenant_project_man.Tests.Data.{team, rt, invitation}

found_invitation : find_invitation_by_id "i1" team ≡ some invitation
unfolding find_invitation_by_id find
found_invitation = refl

abbrev after_revocation : World rows
after_revocation = (revoke_invitation rt "o1" "i1" team).1

revocation_succeeds : revoke_invitation rt "o1" "i1" team ≡ (ok tt, after_revocation)
unfolding revoke_invitation find_open find_invitation_by_id update_invitation update update_if
    store_or store_if Bool-cases find check fits change
revocation_succeeds = refl

abbrev resent : World rows
resent = (resend_invitation rt 7 "new-link" "o1" "i1" team).1

resending_succeeds : resend_invitation rt 7 "new-link" "o1" "i1" team ≡ (ok tt, resent)
unfolding resend_invitation find_open find_by_id find_invitation_by_id update_invitation update
    update_if store_or store_if Bool-cases find check fits change
resending_succeeds = refl

abbrev input : AddMemberInput
input = record { email = "dee@x.io"; name = some "Dee"; role = viewer }

abbrev dee : PendingMember
dee = record {
  id = "i9";
  organization_id = "o1";
  user_id = "i9";
  role = viewer;
  name = "Dee";
  email = "dee@x.io";
  avatar_url = none;
  is_email_verified = false;
}

abbrev invited : World rows
invited = (add_member rt 7 "dee-link" "i9" "o1" input (some "u1") team).1

inviting_succeeds : add_member rt 7 "dee-link" "i9" "o1" input (some "u1") team ≡ (ok dee, invited)
unfolding add_member find_by_id find_user_by_email find_pending_invitation refuse_joined
    renew_or_create create_invitation pending_member create store_or store_if Bool-cases first find
    check fits
inviting_succeeds = refl

invites_example : rows.find_id invitations_model "i9" invited.invitations ≢ none
invites_example =
    (invites {db = rows} rt 7 "dee-link" "i9" "o1" input (some "u1") team invited dee
      inviting_succeeds).0
