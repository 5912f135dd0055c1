-- ===== src/Organizations/Transactions.antt =====
-- organization.repository.ts: the two transactions, and the creation of an invitation.
use Prim.Native.Char.{code}
use multi_tenant_project_man.Base.{
  ℕ, String, true, false, Option, none, some, ◌==◌, ◌&&◌, not, if◌then◌else◌, present, or_default,
  is_some, ltb, nat_eq,
}
use multi_tenant_project_man.Base.Error.{AppError, bad_request, conflict, not_found}
use multi_tenant_project_man.Base.Monad.{
  Action, pure, throw, ◌>>=◌, ◌>>◌, gets, require, throw_if, transaction, catch_unique,
}
use multi_tenant_project_man.Prisma.{Prisma}
use multi_tenant_project_man.Schema.{
  OrganizationRole, owner, InvitationStatus, pending, accepted, revoked, expired, invalidated,
  is_pending, User, Organization, OrganizationMember, OrganizationInvitation, users_model,
  organizations_model, members_model, invitations_model,
}
use multi_tenant_project_man.World.{Runtime, World, write}
use multi_tenant_project_man.Organizations.Repository.{
  find_user_by_email, find_user_membership, find_invitation_by_id, update_invitation,
}

-- `email.split('@')[0]`
unfoldable pub local_part : String → String
local_part String.[] = String.[]
local_part (String.◌∷◌ c s) =
    let rest = String.◌∷◌ c (local_part s) in if nat_eq (code c) b'@' then "" else rest

-- `email.toLowerCase().trim()`
abbrev pub normalized : Runtime → String → String
normalized rt email = rt.trim (rt.to_lower_case email)

-- The two answers for a user who is in an organization, this one or another.
unfoldable pub refuse_membership :
    {S : Type 0} → (String → AppError) → String → Option OrganizationMember → Action S (Unit {0})
refuse_membership kind organization_id none = pure tt
refuse_membership kind organization_id (some m) = throw (
    if m.organization_id == organization_id
    then kind "MEMBER_ALREADY_EXISTS"
    else kind "USER_ALREADY_IN_ORGANIZATION")

-- An invitation can be accepted while it is pending.
unfoldable pub require_acceptable : {S : Type 0} → InvitationStatus → Action S (Unit {0})
require_acceptable accepted = throw (bad_request "INVITATION_ALREADY_ACCEPTED")
require_acceptable invalidated = throw (bad_request "INVITATION_INVALIDATED")
require_acceptable pending = pure tt
require_acceptable revoked = throw (bad_request "INVITATION_INVALID")
require_acceptable expired = throw (bad_request "INVITATION_INVALID")

-- `expiresAt` of an invitation is past: it is marked, and the caller is refused.
unfoldable pub refuse_expired :
    {db : Prisma} → ℕ → OrganizationInvitation → Action (World db) (Unit {0})
refuse_expired now i =
    if ltb i.expires_at now
    then (update_invitation i.id (λ r. record r { status = expired })
        >> throw (bad_request "INVITATION_EXPIRED"))
    else pure tt

-- A new user's name: `name || email.split('@')[0] || 'Member'`.
unfoldable pub new_user_name : Option String → String → String
unfolding local_part
new_user_name name email =
    if present name
    then or_default name ""
    else if local_part email == ""
    then "Member"
    else local_part email

pub record AcceptParams : Type 0 where
  pub invitation_id : String
  pub organization_id : String
  pub email : String
  pub name : Option String
  pub password_hash : Option String
  pub role : OrganizationRole

abbrev pub new_member : String → AcceptParams → User → OrganizationMember
new_member member_id params user = record {
  id = member_id;
  organization_id = params.organization_id;
  user_id = user.id;
  role = params.role;
}

module _ {db : Prisma} where
  -- The `include`d organization is the invitation's, by the foreign key.
  unfoldable pub create_invitation : Runtime → OrganizationInvitation → Action (World db) (Unit {0})
  create_invitation rt i w =
      write
        (db.create invitations_model
          (record i { email = normalized rt i.email; status = pending; accepted_at = none })
          w.invitations)
        (λ t v. record v { invitations = t }) tt w

  unfoldable pub find_pending_invitation :
      Runtime → String → String → World db → Option OrganizationInvitation
  find_pending_invitation rt organization_id email w =
      db.find_first invitations_model
        (λ i.
          i.organization_id == organization_id
          && (i.email == normalized rt email && is_pending i.status))
        w.invitations

  unfoldable pub create_member : OrganizationMember → Action (World db) (Unit {0})
  create_member m w =
      write (db.create members_model m w.members) (λ t v. record v { members = t }) tt w

  unfoldable pub create_user : User → Action (World db) User
  create_user u w = write (db.create users_model u w.users) (λ t v. record v { users = t }) u w

  unfoldable pub create_organization : Organization → Action (World db) Organization
  create_organization o w =
      write (db.create organizations_model o w.organizations)
        (λ t v. record v { organizations = t }) o w

  -- The ids are those that the database makes for the new rows.
  unfoldable pub create_organization_with_owner :
      (organization_id member_id : String)
      → (user_id name slug : String) → Action (World db) Organization
  unfolding find_user_membership create_member create_organization
  create_organization_with_owner organization_id member_id user_id name slug = transaction do
    membership ← gets (find_user_membership user_id)
    throw_if (is_some membership) (conflict "USER_ALREADY_IN_ORGANIZATION")
    organization ←
        create_organization
          (record { id = organization_id; name = name; slug = slug; owner_id = user_id })
    catch_unique
        (create_member (record {
          id = member_id;
          organization_id = organization.id;
          user_id = user_id;
          role = owner;
        }))
        (conflict "USER_ALREADY_IN_ORGANIZATION")
    pure organization

  -- `tx.organizationInvitation.updateMany`: the other pending invitations for the address.
  unfoldable pub invalidate_others : String → String → Action (World db) (Unit {0})
  invalidate_others email invitation_id w = pure tt (record w {
    invitations =
        db.update_many invitations_model
          (λ i. i.email == email && (is_pending i.status && not (i.id == invitation_id)))
          (λ i. record i { status = invalidated }) w.invitations;
  })

  -- The user with the address, who must be in no organization, or a new user.
  unfoldable pub user_to_join :
      String → AcceptParams → String → Option User → Action (World db) User
  unfolding refuse_membership new_user_name find_user_membership create_user
  user_to_join new_user_id params email (some user) = do
    membership ← gets (find_user_membership user.id)
    refuse_membership conflict params.organization_id membership
    pure user
  user_to_join new_user_id params email none = do
    throw_if (not (present params.password_hash)) (bad_request "PASSWORD_REQUIRED")
    catch_unique
        (create_user (record {
          id = new_user_id;
          name = new_user_name params.name email;
          email = email;
          password_hash = or_default params.password_hash "";
          avatar_url = none;
          is_email_verified = true;
          totp_secret = none;
          totp_enabled = false;
        }))
        (conflict "USER_ALREADY_IN_ORGANIZATION")

  -- The steps 3 to 5 of the transaction: membership, acceptance, and the other invitations.
  unfoldable pub join :
      (now : ℕ) (member_id : String)
      → AcceptParams
      → (email : String) → OrganizationInvitation
      → User
      → Action (World db) (User × OrganizationMember)
  unfolding create_member update_invitation invalidate_others
  join now member_id params email invitation user = do
    let joined = new_member member_id params user
    catch_unique (create_member joined) (conflict "USER_ALREADY_IN_ORGANIZATION")
    update_invitation invitation.id (λ i. record i { status = accepted; accepted_at = some now })
    invalidate_others email invitation.id
    pure (user, joined)

  -- The ids are those of the rows that the transaction may create.
  unfoldable pub accept_invitation_steps :
      Runtime
      → (now : ℕ) (new_user_id member_id : String) → AcceptParams
      → Action (World db) (User × OrganizationMember)
  unfolding require_acceptable refuse_expired
  accept_invitation_steps rt now new_user_id member_id params = do
    let email = normalized rt params.email
    found ← gets (find_invitation_by_id params.invitation_id)
    invitation ← require found (not_found "INVITATION_NOT_FOUND")
    require_acceptable invitation.status
    refuse_expired now invitation
    existing ← gets (find_user_by_email email)
    user ← user_to_join new_user_id params email existing
    join now member_id params email invitation user

  unfoldable pub accept_invitation_transaction :
      Runtime
      → (now : ℕ) (new_user_id member_id : String) → AcceptParams
      → Action (World db) (User × OrganizationMember)
  unfolding accept_invitation_steps
  accept_invitation_transaction rt now new_user_id member_id params =
      transaction (accept_invitation_steps rt now new_user_id member_id params)
