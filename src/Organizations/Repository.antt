-- ===== src/Organizations/Repository.antt =====
-- organization.repository.ts. A query is a function of the world; a write is an action.
use multi_tenant_project_man.Base.{String, Option, none, some, List, ◌==◌, ◌&&◌}
use multi_tenant_project_man.Base.Error.{record_not_found}
use multi_tenant_project_man.Base.Monad.{Action, pure, raise}
use multi_tenant_project_man.Prisma.{Prisma}
use multi_tenant_project_man.Schema.{
  OrganizationRole, is_pending, User, Organization, OrganizationMember, OrganizationInvitation,
  users_model, organizations_model, members_model, invitations_model,
}
use multi_tenant_project_man.World.{World, write}

module _ {db : Prisma} where
  unfoldable pub find_by_id : String → World db → Option Organization
  find_by_id id w = db.find_id organizations_model id w.organizations

  unfoldable pub find_by_slug : String → World db → Option Organization
  find_by_slug slug w = db.find_first organizations_model (λ o. o.slug == slug) w.organizations

  unfoldable pub find_user_by_email : String → World db → Option User
  find_user_by_email email w = db.find_first users_model (λ u. u.email == email) w.users

  unfoldable pub find_member : String → String → World db → Option OrganizationMember
  find_member organization_id user_id w =
      db.find_first members_model
        (λ m. m.organization_id == organization_id && m.user_id == user_id) w.members

  unfoldable pub find_user_membership : String → World db → Option OrganizationMember
  find_user_membership user_id w = db.find_first members_model (λ m. m.user_id == user_id) w.members

  unfoldable pub find_members : String → World db → List OrganizationMember
  find_members organization_id w =
      db.find_many members_model (λ m. m.organization_id == organization_id) w.members

  -- The update goes by `organizationId_userId`, as the query does.
  unfoldable pub update_member_role :
      String → String → OrganizationRole → Action (World db) OrganizationMember
  unfolding find_member
  update_member_role organization_id user_id role w = elim (find_member organization_id user_id w) [
    | none ↦ raise record_not_found w
    | some m ↦
        write (db.update members_model m.id (λ r. record r { role = role }) w.members)
          (λ t v. record v { members = t }) (record m { role = role }) w
  ]

  unfoldable pub remove_member : String → String → Action (World db) (Unit {0})
  unfolding find_member
  remove_member organization_id user_id w = elim (find_member organization_id user_id w) [
    | none ↦ raise record_not_found w
    | some m ↦
        pure tt (record w { members = db.delete_many members_model (λ r. r.id == m.id) w.members })
  ]

  unfoldable pub find_invitation_by_token_hash : String → World db → Option OrganizationInvitation
  find_invitation_by_token_hash token_hash w =
      db.find_first invitations_model (λ i. i.token_hash == token_hash) w.invitations

  unfoldable pub find_invitation_by_id : String → World db → Option OrganizationInvitation
  find_invitation_by_id id w = db.find_id invitations_model id w.invitations

  unfoldable pub list_pending_invitations : String → World db → List OrganizationInvitation
  list_pending_invitations organization_id w =
      db.find_many invitations_model
        (λ i. i.organization_id == organization_id && is_pending i.status) w.invitations

  -- `updateInvitation(id, data)`, with the data as a change of the row.
  unfoldable pub update_invitation :
      String → (OrganizationInvitation → OrganizationInvitation) → Action (World db) (Unit {0})
  update_invitation id change w =
      write (db.update invitations_model id change w.invitations)
        (λ t v. record v { invitations = t }) tt w
