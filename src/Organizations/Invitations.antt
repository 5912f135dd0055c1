-- ===== src/Organizations/Invitations.antt =====
-- organization.service.ts: the life of an invitation. A random token, the id of a row that may be
-- created and the time are arguments of a call.
use multi_tenant_project_man.Base.{
  ℕ, String, Bool, false, Option, none, some, List, ◌+◌, ◌*◌, ◌==◌, not, present, or_default,
  if◌then◌else◌,
}
use multi_tenant_project_man.Base.Error.{bad_request, not_found, conflict}
use multi_tenant_project_man.Base.Monad.{Action, pure, ◌>>=◌, ◌>>◌, gets, require, throw_if}
use multi_tenant_project_man.Prisma.{Prisma}
use multi_tenant_project_man.Schema.{
  OrganizationRole, pending, revoked, is_pending, User, Organization, OrganizationInvitation,
}
use multi_tenant_project_man.World.{Runtime, World, call, invitation_email}
use multi_tenant_project_man.Tokens.{hash_token}
use multi_tenant_project_man.Organizations.Repository.{
  find_by_id, find_user_by_email, find_user_membership, find_invitation_by_id,
  list_pending_invitations, update_invitation,
}
use multi_tenant_project_man.Organizations.Transactions.{
  normalized, local_part, create_invitation, find_pending_invitation, refuse_membership,
}

-- 7 days
abbrev pub invitation_lifetime : ℕ
invitation_lifetime = 7 * 24 * 60 * 60 * 1000

-- `org.name || 'Workspace'`
abbrev pub org_name : Option Organization → String
org_name none = "Workspace"
org_name (some o) = if o.name == "" then "Workspace" else o.name

pub record AddMemberInput : Type 0 where
  pub email : String
  pub name : Option String
  pub role : OrganizationRole

-- OrganizationMemberResponse, less the times.
pub record PendingMember : Type 0 where
  pub id : String
  pub organization_id : String
  pub user_id : String
  pub role : OrganizationRole
  pub name : String
  pub email : String
  pub avatar_url : Option String
  pub is_email_verified : Bool

-- `input.name?.trim() || email.split('@')[0]`
abbrev pub shown_name : Runtime → Option String → String → String
shown_name rt none email = local_part email
shown_name rt (some name) email = if rt.trim name == "" then local_part email else rt.trim name

unfoldable pub pending_member :
    Runtime
    → AddMemberInput
    → (organization_id invitation_id email : String) → Option User
    → PendingMember
unfolding local_part
pending_member rt input organization_id invitation_id email (some u) = record {
  id = invitation_id;
  organization_id = organization_id;
  user_id = u.id;
  role = input.role;
  name = u.name;
  email = email;
  avatar_url = u.avatar_url;
  is_email_verified = u.is_email_verified;
}
pending_member rt input organization_id invitation_id email none = record {
  id = invitation_id;
  organization_id = organization_id;
  user_id = invitation_id;
  role = input.role;
  name = shown_name rt input.name email;
  email = email;
  avatar_url = none;
  is_email_verified = false;
}

module _ {db : Prisma} (rt : Runtime) where
  -- A user who has an account may be in no organization.
  unfoldable pub refuse_joined : String → Option User → Action (World db) (Unit {0})
  unfolding find_user_membership refuse_membership
  refuse_joined organization_id none = pure tt
  refuse_joined organization_id (some u) = do
    membership ← gets (find_user_membership u.id)
    refuse_membership conflict organization_id membership

  -- The pending invitation is renewed, or a new one is stored; its id is the result.
  unfoldable pub renew_or_create :
      Option OrganizationInvitation → OrganizationInvitation → Action (World db) String
  unfolding update_invitation create_invitation
  renew_or_create (some old) fresh = do
    update_invitation old.id (λ i. record i {
      token_hash = fresh.token_hash;
      expires_at = fresh.expires_at;
      role = fresh.role;
      status = pending;
    })
    pure old.id
  renew_or_create none fresh = do create_invitation rt fresh; pure fresh.id

  -- `addMember`
  unfoldable pub add_member :
      (now : ℕ) (raw_token new_id : String)
      → (organization_id : String) → AddMemberInput
      → (invited_by_id : Option String) → Action (World db) PendingMember
  unfolding find_by_id find_user_by_email find_pending_invitation refuse_joined renew_or_create
      pending_member
  add_member now raw_token new_id organization_id input invited_by_id = do
    found ← gets (find_by_id organization_id)
    org ← require found (not_found "ORGANIZATION_NOT_FOUND")
    let email = normalized rt input.email
    user ← gets (find_user_by_email email)
    refuse_joined organization_id user
    existing ← gets (find_pending_invitation rt organization_id email)
    let fresh : OrganizationInvitation = record {
      id = new_id;
      organization_id = organization_id;
      email = email;
      role = input.role;
      token_hash = hash_token rt raw_token;
      invited_by_id = if present invited_by_id then or_default invited_by_id "" else org.owner_id;
      status = pending;
      expires_at = now + invitation_lifetime;
      accepted_at = none;
    }
    invitation_id ← renew_or_create existing fresh
    call (invitation_email email raw_token (org_name found) input.role)
    pure (pending_member rt input organization_id invitation_id email user)

  -- `listInvitations`
  unfoldable pub list_invitations : String → Action (World db) (List OrganizationInvitation)
  unfolding list_pending_invitations
  list_invitations organization_id = gets (list_pending_invitations organization_id)

  -- The invitation of the organization that may still be resent or revoked.
  unfoldable pub find_open :
      (organization_id invitation_id : String) → Action (World db) OrganizationInvitation
  unfolding find_invitation_by_id
  find_open organization_id invitation_id = do
    found ← gets (find_invitation_by_id invitation_id)
    invitation ← require found (not_found "INVITATION_NOT_FOUND")
    throw_if (not (invitation.organization_id == organization_id))
        (not_found "INVITATION_NOT_FOUND")
    throw_if (not (is_pending invitation.status)) (bad_request "INVITATION_NOT_PENDING")
    pure invitation

  -- `resendInvitation`
  unfoldable pub resend_invitation :
      (now : ℕ) (raw_token : String)
      → (organization_id invitation_id : String) → Action (World db) (Unit {0})
  unfolding find_open find_by_id update_invitation
  resend_invitation now raw_token organization_id invitation_id = do
    invitation ← find_open organization_id invitation_id
    org ← gets (find_by_id organization_id)
    update_invitation invitation.id (λ i. record i {
      token_hash = hash_token rt raw_token;
      expires_at = now + invitation_lifetime;
    })
    call (invitation_email invitation.email raw_token (org_name org) invitation.role)

  -- `revokeInvitation`
  unfoldable pub revoke_invitation :
      (organization_id invitation_id : String) → Action (World db) (Unit {0})
  unfolding find_open update_invitation
  revoke_invitation organization_id invitation_id = do
    invitation ← find_open organization_id invitation_id
    update_invitation invitation.id (λ i. record i { status = revoked })
