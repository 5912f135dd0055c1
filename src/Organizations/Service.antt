-- ===== src/Organizations/Service.antt =====
-- organization.service.ts: an organization's creation, answers, change and deletion.
use Prim.Native.String
use multi_tenant_project_man.Base.{
  String, Bool, false, Option, none, some, List, [], ◌∷◌, ◌==◌, ◌&&◌, not, is_some, present,
  or_default, if◌then◌else◌,
}
use multi_tenant_project_man.Base.Error.{conflict, not_found}
use multi_tenant_project_man.Base.Monad.{Action, pure, throw, ◌>>=◌, ◌>>◌, gets, require, throw_if}
use multi_tenant_project_man.CacheKeys
use multi_tenant_project_man.Caching.{get_or_set, organization_ttl, user_orgs_ttl}
use multi_tenant_project_man.Prisma.{Prisma}
use multi_tenant_project_man.Schema.{Organization, OrganizationMember, members_model}
use multi_tenant_project_man.World.{
  Runtime, World, call, cache_del, log_activity, organization_entity, created, updated,
  ActivityAction,
}
use multi_tenant_project_man.Auth.Register.{slugify}
use multi_tenant_project_man.Organizations.Repository.{
  find_by_id, find_by_slug, find_user_membership,
}
use multi_tenant_project_man.Organizations.Transactions.{create_organization_with_owner}
use multi_tenant_project_man.Organizations.Cascade.{
  update_organization_row, delete_organization_row,
}

pub record CreateOrganizationInput : Type 0 where
  pub name : String
  pub slug : Option String

pub record UpdateOrganizationInput : Type 0 where
  pub name : Option String
  pub slug : Option String

-- `...(value ? { field: value.trim() } : {})`
abbrev if_given : Runtime → Option String → String → String
if_given rt value old = if present value then rt.trim (or_default value "") else old

-- `slugTaken && slugTaken.id !== organizationId`
abbrev is_taken : String → Option Organization → Bool
is_taken organization_id none = false
is_taken organization_id (some o) = not (o.id == organization_id)

unfoldable pub with_organization_input :
    Runtime → UpdateOrganizationInput → Organization → Organization
with_organization_input rt input o = record o {
  name = if_given rt input.name o.name;
  slug = if_given rt input.slug o.slug;
}

module _ {db : Prisma} where
  -- `generateUniqueSlug`: a slug that is asked for, or one of the name, with a random suffix where
  -- it is taken.
  unfoldable pub draw_slug :
      Runtime → (suffix name : String) → (custom_slug : Option String) → Action (World db) String
  unfolding slugify find_by_slug
  draw_slug rt suffix name custom_slug w =
      if present custom_slug
      then (if is_some (find_by_slug (or_default custom_slug "") w)
          then throw (conflict "SLUG_ALREADY_EXISTS") w
          else pure (or_default custom_slug "") w)
      else if is_some (find_by_slug (slugify rt name) w)
      then pure (String.◌++◌ (slugify rt name) (String.◌++◌ "-" suffix)) w
      else pure (slugify rt name) w

  abbrev log_organization : String → String → ActivityAction → Action (World db) (Unit {0})
  log_organization organization_id user_id action = call (
      log_activity (record {
        organization_id = organization_id;
        user_id = user_id;
        entity_type = organization_entity;
        entity_id = organization_id;
        action = action;
      }))

  -- `createOrganization`; the database chooses the ids, and the suffix is drawn at random.
  unfoldable pub create_organization :
      Runtime
      → (organization_id member_id suffix : String) → (user_id : String) → CreateOrganizationInput
      → Action (World db) Organization
  unfolding find_user_membership draw_slug create_organization_with_owner
  create_organization rt organization_id member_id suffix user_id input = do
    membership ← gets (find_user_membership user_id)
    throw_if (is_some membership) (conflict "USER_ALREADY_IN_ORGANIZATION")
    slug ← draw_slug rt suffix input.name input.slug
    organization ←
        create_organization_with_owner organization_id member_id user_id (rt.trim input.name) slug
    call (cache_del (CacheKeys.user_organizations user_id ∷ []))
    log_organization organization.id user_id created
    pure organization

  -- `findUserOrganizations`, as memberships
  unfoldable pub find_user_organizations : String → World db → List OrganizationMember
  find_user_organizations user_id w =
      db.find_many members_model (λ m. m.user_id == user_id) w.members

  unfoldable pub get_user_organizations :
      (cached : Option (List OrganizationMember))
      → String
      → Action (World db) (List OrganizationMember)
  unfolding find_user_organizations get_or_set
  get_user_organizations cached user_id =
      get_or_set (CacheKeys.user_organizations user_id) cached
        (gets (find_user_organizations user_id)) user_orgs_ttl

  unfoldable pub get_organization_by_id :
      (cached : Option Organization) → String → Action (World db) Organization
  unfolding find_by_id get_or_set
  get_organization_by_id cached organization_id =
      get_or_set (CacheKeys.organization organization_id) cached
        (do
          found ← gets (find_by_id organization_id)
          require found (not_found "ORGANIZATION_NOT_FOUND"))
        organization_ttl

  -- `updateOrganization`
  unfoldable pub update_organization :
      Runtime
      → (organization_id : String) → UpdateOrganizationInput
      → Action (World db) Organization
  unfolding find_by_id find_by_slug with_organization_input update_organization_row
  update_organization rt organization_id input = do
    found ← gets (find_by_id organization_id)
    existing ← require found (not_found "ORGANIZATION_NOT_FOUND")
    taken ← gets (find_by_slug (or_default input.slug ""))
    throw_if
        (present input.slug
          && (not (or_default input.slug "" == existing.slug) && is_taken organization_id taken))
        (conflict "SLUG_ALREADY_EXISTS")
    changed ← update_organization_row organization_id (with_organization_input rt input) existing
    call (cache_del (CacheKeys.organization organization_id ∷ []))
    log_organization changed.id changed.owner_id updated
    pure changed

  -- `deleteOrganization`
  unfoldable pub delete_organization : String → Action (World db) (Unit {0})
  unfolding find_by_id delete_organization_row
  delete_organization organization_id = do
    found ← gets (find_by_id organization_id)
    existing ← require found (not_found "ORGANIZATION_NOT_FOUND")
    delete_organization_row organization_id
    call (cache_del (CacheKeys.organization organization_id ∷ []))
