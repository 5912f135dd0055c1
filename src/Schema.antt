-- ===== src/Schema.antt =====
-- prisma/schema.prisma: the rows of the tables that the services write, and their unique columns.
-- `createdAt` and `updatedAt`, which the database fills, are left out. Times are milliseconds.
pub mod Work
use multi_tenant_project_man.Base.{ℕ, String, Bool, true, false, Option, ◌≡◌, refl, ◌==◌}
use multi_tenant_project_man.Prisma.{Model}

-- constants/roles.ts
pub data OrganizationRole : Type 0 where
  owner admin member viewer : OrganizationRole

-- `===` on roles.
abbrev pub same_role : OrganizationRole → OrganizationRole → Bool
same_role owner owner = true
same_role admin admin = true
same_role member member = true
same_role viewer viewer = true
same_role _ _ = false

pub same_role_eq : (r s : OrganizationRole) → same_role r s ≡ true → r ≡ s
same_role_eq owner owner h = refl
same_role_eq admin admin h = refl
same_role_eq member member h = refl
same_role_eq viewer viewer h = refl
same_role_eq _ _ h = cc

abbrev pub role_name : OrganizationRole → String
role_name owner = "OWNER"
role_name admin = "ADMIN"
role_name member = "MEMBER"
role_name viewer = "VIEWER"

pub data InvitationStatus : Type 0 where
  pending accepted revoked expired invalidated : InvitationStatus

abbrev pub is_pending : InvitationStatus → Bool
is_pending pending = true
is_pending _ = false

pub record User : Type 0 where
  pub id : String
  pub name : String
  pub email : String
  pub password_hash : String
  pub avatar_url : Option String
  pub is_email_verified : Bool
  pub totp_secret : Option String
  pub totp_enabled : Bool

pub record RefreshSession : Type 0 where
  pub id : String
  pub user_id : String
  pub token_hash : String
  pub expires_at : ℕ
  pub revoked_at : Option ℕ
  pub user_agent : Option String
  pub ip_address : Option String

pub record Organization : Type 0 where
  pub id : String
  pub name : String
  pub slug : String
  pub owner_id : String

pub record OrganizationMember : Type 0 where
  pub id : String
  pub organization_id : String
  pub user_id : String
  pub role : OrganizationRole

pub record OrganizationInvitation : Type 0 where
  pub id : String
  pub organization_id : String
  pub email : String
  pub role : OrganizationRole
  pub token_hash : String
  pub invited_by_id : String
  pub status : InvitationStatus
  pub expires_at : ℕ
  pub accepted_at : Option ℕ

abbrev pub users_model : Model User
users_model = record { id = λ u. u.id; clash = λ u v. u.email == v.email }

abbrev pub sessions_model : Model RefreshSession
sessions_model = record { id = λ s. s.id; clash = λ s t. s.token_hash == t.token_hash }

abbrev pub organizations_model : Model Organization
organizations_model = record { id = λ o. o.id; clash = λ o p. o.slug == p.slug }

-- `userId @unique` covers `@@unique([organizationId, userId])`.
abbrev pub members_model : Model OrganizationMember
members_model = record { id = λ m. m.id; clash = λ m n. m.user_id == n.user_id }

abbrev pub invitations_model : Model OrganizationInvitation
invitations_model = record { id = λ i. i.id; clash = λ i j. i.token_hash == j.token_hash }
