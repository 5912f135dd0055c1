-- ===== src/Tests/Tenants.antt =====
-- Organizations that come and go.
use multi_tenant_project_man.Base.{some, none, ◌≡◌, refl, Bool-cases}
use multi_tenant_project_man.Base.Error.{conflict, app}
use multi_tenant_project_man.Base.Monad.{Result, ok, err}
use multi_tenant_project_man.Prisma.Rows.Client.{
  rows, create, update, update_if, update_many, delete_many, or_same, store_or, store_if,
}
use multi_tenant_project_man.Prisma.Rows.Lists.{
  find, first, select, check, fits, apart, change_many,
}
use multi_tenant_project_man.Prisma.Where.{delete_where}
use multi_tenant_project_man.Schema.{Organization}
use multi_tenant_project_man.Schema.Work.{projects_model}
use multi_tenant_project_man.World.{World}
use multi_tenant_project_man.Projects.Repository.{cascade_tasks}
use multi_tenant_project_man.Organizations.Repository.{
  find_by_id, find_by_slug, find_user_membership,
}
use multi_tenant_project_man.Organizations.Transactions.{
  create_organization_with_owner, create_organization as insert_organization, create_member,
}
use multi_tenant_project_man.Organizations.Cascade.{
  cascade_organization, delete_organization_row, owns_project, owns_task, owns_team, owns_meeting,
  is_of_team,
}
use multi_tenant_project_man.Organizations.Service.{
  CreateOrganizationInput, create_organization, delete_organization, draw_slug,
}
use multi_tenant_project_man.Organizations.Removal.{delete_organization_exact}
use multi_tenant_project_man.Organizations.Lifecycle.{
  create_organization_atomic, create_organization_owned,
}
use multi_tenant_project_man.Tests.Data.{rt, team, project}

abbrev press : CreateOrganizationInput
press = record { name = "Press"; slug = some "press" }

abbrev by_ann : Result Organization
by_ann = (create_organization {db = rows} rt "o3" "m3" "s" "u1" press team).0

abbrev by_cy : Result Organization
by_cy = (create_organization {db = rows} rt "o3" "m3" "s" "u3" press team).0

abbrev pressed : Organization
pressed = record { id = "o3"; name = "Press"; slug = "press"; owner_id = "u3" }

ann_refused : by_ann ≡ err (app (conflict "USER_ALREADY_IN_ORGANIZATION"))
unfolding create_organization find_user_membership first
ann_refused = refl

cy_founds : by_cy ≡ ok pressed
unfolding create_organization draw_slug find_user_membership find_by_slug
    create_organization_with_owner insert_organization create_member create update update_if or_same
    store_or store_if find first select check fits apart Bool-cases
cy_founds = refl

create_organization_atomic_example :
    (create_organization {db = rows} rt "o3" "m3" "s" "u1" press team).1 ≡ team
create_organization_atomic_example =
    create_organization_atomic {db = rows} team rt "o3" "m3" "s" "u1" press
      (app (conflict "USER_ALREADY_IN_ORGANIZATION")) ann_refused

create_organization_owned_example : find_user_membership {db = rows} "u3" team ≡ none
create_organization_owned_example =
    (create_organization_owned {db = rows} team rt "o3" "m3" "s" "u3" press pressed cy_founds).1

abbrev without_x : World rows
without_x = (delete_organization {db = rows} "o1" team).1

x_goes : delete_organization {db = rows} "o1" team ≡ (ok tt, without_x)
unfolding delete_organization delete_organization_row delete_where cascade_organization
    cascade_tasks owns_project owns_task owns_team owns_meeting is_of_team find_by_id find first
    select delete_many update_many or_same store_or store_if change_many check fits apart Bool-cases
x_goes = refl

delete_organization_exact_example : find projects_model "p1" without_x.projects.0 ≡ none
unfolding find
delete_organization_exact_example =
    (delete_organization_exact {db = rows} "o1" team without_x x_goes).2 "p1" project refl
