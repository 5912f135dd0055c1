-- ===== src/Organizations/Accept.antt =====
-- organization.service.ts: looking an invitation up by its token, and accepting it.
use multi_tenant_project_man.Base.{
  ℕ, String, Bool, true, false, Option, none, some, [], ◌∷◌, ◌==◌, ◌||◌, not, or_default, ltb,
}
use multi_tenant_project_man.Base.Error.{bad_request, unauthorized, forbidden, not_found}
use multi_tenant_project_man.Base.Monad.{Action, pure, throw, ◌>>=◌, ◌>>◌, gets, require, throw_if}
use multi_tenant_project_man.CacheKeys
use multi_tenant_project_man.Prisma.{Prisma}
use multi_tenant_project_man.Schema.{
  InvitationStatus, pending, accepted, revoked, expired, invalidated, User, OrganizationMember,
  OrganizationInvitation,
}
use multi_tenant_project_man.World.{
  Runtime, World, call, cache_del, log_activity, user_entity, ActivityAction,
}
use multi_tenant_project_man.Tokens.{
  hash_token, generate_access_token, generate_refresh_token, refresh_token_expiry,
}
use multi_tenant_project_man.Sessions.{AuthContext, session_row, create_refresh_session}
use multi_tenant_project_man.Organizations.Repository.{
  find_user_by_email, find_user_membership, find_invitation_by_token_hash,
}
use multi_tenant_project_man.Organizations.Transactions.{
  normalized, refuse_membership, require_acceptable, refuse_expired, accept_invitation_transaction,
}
use multi_tenant_project_man.Organizations.Invitations.{shown_name}

-- The answers to a lookup of an invitation that is not pending.
unfoldable pub require_pending : {S : Type 0} → InvitationStatus → Action S (Unit {0})
require_pending accepted = throw (bad_request "INVITATION_ALREADY_ACCEPTED")
require_pending invalidated = throw (bad_request "INVITATION_INVALIDATED")
require_pending expired = throw (bad_request "INVITATION_EXPIRED")
require_pending pending = pure tt
require_pending revoked = throw (bad_request "INVITATION_ALREADY_USED")

-- `authenticatedUser`
pub record Caller : Type 0 where
  pub id : String
  pub email : String

pub record AcceptInput : Type 0 where
  pub name : Option String
  pub password : Option String

-- What a call draws at random or from the database: the salt, the new ids and the tokens' ids.
pub record Draws : Type 0 where
  pub salt : String
  pub user_id : String
  pub member_id : String
  pub session_id : String
  pub token_id : String
  pub jti : String

pub record Accepted : Type 0 where
  pub user : User
  pub member : OrganizationMember
  pub access_token : String
  pub refresh_token : String

-- `!input.password || input.password.length < 8`
abbrev too_short : Runtime → Option String → Bool
too_short rt none = true
too_short rt (some p) = p == "" || ltb (rt.text_length p) 8

-- The address of the caller, who may be missing, is another than that of the invitation.
abbrev is_stranger : Runtime → Option Caller → String → Bool
is_stranger rt none email = false
is_stranger rt (some caller) email = not (normalized rt caller.email == email)

module _ {db : Prisma} (rt : Runtime) where
  unfoldable pub find_by_token : (raw_token : String) → Action (World db) OrganizationInvitation
  unfolding find_invitation_by_token_hash
  find_by_token raw_token = do
    throw_if (raw_token == "") (bad_request "INVALID_INVITATION_TOKEN")
    found ← gets (find_invitation_by_token_hash (hash_token rt raw_token))
    require found (not_found "INVITATION_NOT_FOUND")

  unfoldable pub refuse_joined : String → Option User → Action (World db) (Unit {0})
  unfolding find_user_membership refuse_membership
  refuse_joined organization_id none = pure tt
  refuse_joined organization_id (some u) = do
    membership ← gets (find_user_membership u.id)
    refuse_membership bad_request organization_id membership

  -- `getInvitationByToken`
  unfoldable pub get_invitation_by_token :
      (now : ℕ) (raw_token : String) → Action (World db) OrganizationInvitation
  unfolding find_by_token find_user_by_email refuse_joined require_pending refuse_expired
  get_invitation_by_token now raw_token = do
    invitation ← find_by_token raw_token
    require_pending invitation.status
    refuse_expired now invitation
    user ← gets (find_user_by_email (normalized rt invitation.email))
    refuse_joined invitation.organization_id user
    pure invitation

  -- Step 2: an account is joined by its own user; a new account needs a password, whose hash is the
  -- result.
  unfoldable pub check_recipient :
      (salt email : String)
      → AcceptInput
      → Option Caller
      → Option User
      → Action (World db) (Option String)
  check_recipient salt email input none (some existing) =
      throw (unauthorized "AUTHENTICATION_REQUIRED")
  check_recipient salt email input (some caller) (some existing) = do
    throw_if (not (caller.id == existing.id) || is_stranger rt (some caller) email)
        (forbidden "INVITATION_RECIPIENT_MISMATCH")
    pure none
  check_recipient salt email input caller none = do
    throw_if (is_stranger rt caller email) (forbidden "INVITATION_RECIPIENT_MISMATCH")
    throw_if (too_short rt input.password) (bad_request "PASSWORD_TOO_SHORT")
    pure (some (rt.bcrypt_hash salt (or_default input.password "")))

  -- Step 4: the session of the user who joined, the caches and the activity log.
  unfoldable pub open_session :
      ℕ → Draws → AuthContext → User × OrganizationMember → Action (World db) Accepted
  unfolding create_refresh_session generate_access_token generate_refresh_token
  open_session now draws context (user, member) = do
    let access_token = generate_access_token rt now draws.jti user.id user.email
    let refresh_token = generate_refresh_token rt now draws.token_id user.id
    create_refresh_session (
        session_row draws.session_id user.id (hash_token rt refresh_token)
          (refresh_token_expiry now) context)
    call (
        cache_del (
          CacheKeys.user_organizations user.id
          ∷ CacheKeys.organization member.organization_id
          ∷ []))
    call (
        log_activity (record {
          organization_id = member.organization_id;
          user_id = user.id;
          entity_type = user_entity;
          entity_id = user.id;
          action = ActivityAction.member_added;
        }))
    pure (record {
      user = user;
      member = member;
      access_token = access_token;
      refresh_token = refresh_token;
    })

  -- Steps 3 and 4: the transaction, and the session of the user who joined.
  unfoldable pub admit :
      ℕ
      → Draws
      → AcceptInput
      → AuthContext
      → OrganizationInvitation
      → (password_hash : Option String) → Action (World db) Accepted
  unfolding open_session
  admit now draws input context invitation password_hash = do
    let email = normalized rt invitation.email
    joined ← accept_invitation_transaction rt now draws.user_id draws.member_id (record {
      invitation_id = invitation.id;
      organization_id = invitation.organization_id;
      email = email;
      name = some (shown_name rt input.name email);
      password_hash = password_hash;
      role = invitation.role;
    })
    open_session now draws context joined

  -- `acceptInvitation`
  unfoldable pub accept_invitation :
      (now : ℕ)
      → Draws
      → (raw_token : String) → AcceptInput
      → AuthContext
      → Option Caller
      → Action (World db) Accepted
  unfolding find_by_token require_acceptable refuse_expired
  accept_invitation now draws raw_token input context caller = do
    invitation ← find_by_token raw_token
    require_acceptable invitation.status
    refuse_expired now invitation
    let email = normalized rt invitation.email
    existing ← gets (find_user_by_email email)
    password_hash ← check_recipient draws.salt email input caller existing
    admit now draws input context invitation password_hash
