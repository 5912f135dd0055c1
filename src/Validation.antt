-- ===== src/Validation.antt =====
-- The check that every user of a list is a member of the organization, which the services of tasks,
-- teams and meetings make before they store the list.
pub mod Sound
use multi_tenant_project_man.Base.{
  String, Bool, Option, none, some, List, [], ◌∷◌, ◌==◌, ◌&&◌, not, length, nat_eq,
}
use multi_tenant_project_man.Base.Error.{AppError}
use multi_tenant_project_man.Base.Lists.{contains, unique}
use multi_tenant_project_man.Base.Monad.{Action, pure, ◌>>=◌, ◌>>◌, gets, throw_if}
use multi_tenant_project_man.Prisma.{Prisma}
use multi_tenant_project_man.Schema.{OrganizationMember, members_model}
use multi_tenant_project_man.World.{World}

module _ {db : Prisma} where
  -- `getOrgMemberUsers`, `getOrgMemberUserIds`: the memberships of the organization with these users.
  unfoldable pub org_members : String → List String → World db → List OrganizationMember
  org_members organization_id [] w = []
  org_members organization_id (id ∷ ids) w =
      db.find_many members_model
        (λ m. m.organization_id == organization_id && contains (id ∷ ids) m.user_id) w.members

  -- The ids without repetitions, and the memberships found for them; refused where there are fewer.
  unfoldable pub validate_members :
      AppError
      → String
      → Option (List String)
      → Action (World db) (List String × List OrganizationMember)
  unfolding org_members
  validate_members refusal organization_id none = pure ([], [])
  validate_members refusal organization_id (some []) = pure ([], [])
  validate_members refusal organization_id (some (id ∷ ids)) = do
    members ← gets (org_members organization_id (unique (id ∷ ids)))
    throw_if (not (nat_eq (length members) (length (unique (id ∷ ids))))) refusal
    pure (unique (id ∷ ids), members)
