-- ===== src/Organizations/Members.antt =====
-- organization.service.ts: roles and removal of members.
use multi_tenant_project_man.Base.{String, Bool, true, Option, none, some, [], ◌∷◌, ◌&&◌, not}
use multi_tenant_project_man.Base.Error.{bad_request, forbidden, not_found}
use multi_tenant_project_man.Base.Monad.{Action, pure, ◌>>=◌, ◌>>◌, gets, require, throw_if}
use multi_tenant_project_man.CacheKeys
use multi_tenant_project_man.Prisma.{Prisma}
use multi_tenant_project_man.Schema.{OrganizationRole, owner, admin, OrganizationMember, same_role}
use multi_tenant_project_man.Schema.Work.{NotificationType}
use multi_tenant_project_man.World.{
  World, call, cache_del, log_activity, queue_notification, user_entity, updated, member_removed,
}
use multi_tenant_project_man.Organizations.Repository.{
  find_member, update_member_role, remove_member,
}

-- `role !== OrganizationRole.OWNER`, where the caller's role may be undefined.
abbrev pub not_owner : Option OrganizationRole → Bool
not_owner none = true
not_owner (some r) = not (same_role r owner)

module _ {db : Prisma} where
  -- The caches that hold a member's role.
  abbrev pub forget_member : String → String → Action (World db) (Unit {0})
  forget_member organization_id user_id = call (
      cache_del
        (CacheKeys.user_organizations user_id ∷ CacheKeys.organization organization_id ∷ []))

  -- `updateMemberRole`
  unfoldable pub update_role :
      (organization_id target_user_id : String)
      → (role : OrganizationRole) → (caller_role : Option OrganizationRole)
      → Action (World db) OrganizationMember
  unfolding find_member
  update_role organization_id target_user_id role caller_role = do
    found ← gets (find_member organization_id target_user_id)
    target ← require found (not_found "MEMBER_NOT_FOUND")
    throw_if (same_role target.role owner) (bad_request "CANNOT_MODIFY_OWNER_ROLE")
    throw_if (same_role target.role admin && not_owner caller_role)
        (forbidden "INSUFFICIENT_PERMISSIONS")
    throw_if (same_role role admin && not_owner caller_role) (forbidden "INSUFFICIENT_PERMISSIONS")
    changed ← update_member_role organization_id target_user_id role
    forget_member organization_id target_user_id
    call (
        log_activity (record {
          organization_id = organization_id;
          user_id = target_user_id;
          entity_type = user_entity;
          entity_id = target_user_id;
          action = updated;
        }))
    call (
        queue_notification (record {
          user_id = target_user_id;
          organization_id = organization_id;
          type = NotificationType.member_added;
        }))
    pure changed

  -- `removeMember`
  unfoldable pub remove :
      (organization_id target_user_id : String)
      → (caller_role : Option OrganizationRole) → Action (World db) (Unit {0})
  unfolding find_member
  remove organization_id target_user_id caller_role = do
    found ← gets (find_member organization_id target_user_id)
    target ← require found (not_found "MEMBER_NOT_FOUND")
    throw_if (same_role target.role owner) (bad_request "CANNOT_REMOVE_OWNER")
    throw_if (same_role target.role admin && not_owner caller_role)
        (forbidden "INSUFFICIENT_PERMISSIONS")
    remove_member organization_id target_user_id
    forget_member organization_id target_user_id
    call (
        log_activity (record {
          organization_id = organization_id;
          user_id = target_user_id;
          entity_type = user_entity;
          entity_id = target_user_id;
          action = member_removed;
        }))
