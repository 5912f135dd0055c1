-- ===== src/Tests/Work.antt =====
-- Projects and tasks at work.
use multi_tenant_project_man.Base.{
  zero, suc, String, true, none, some, List, [], ◌∷◌, ◌≡◌, refl, ◌↔◌, ap, is_some,
}
use multi_tenant_project_man.Base.Error.{bad_request}
use multi_tenant_project_man.Base.Lists.{contains, unique}
use multi_tenant_project_man.Base.Monad.{ok}
use multi_tenant_project_man.Prisma.Rows.Client.{
  rows, update_many, delete_many, or_same, store_or, store_if,
}
use multi_tenant_project_man.Prisma.Rows.Lists.{
  find, first, select, check, fits, change_many, apart,
}
use multi_tenant_project_man.Prisma.Where.{delete_where}
use multi_tenant_project_man.Schema.{OrganizationMember}
use multi_tenant_project_man.Schema.Work.{Project, projects_model}
use multi_tenant_project_man.World.{World}
use multi_tenant_project_man.Organizations.Repository.{find_member}
use multi_tenant_project_man.Validation.{validate_members}
use multi_tenant_project_man.Validation.Sound.{validate_exact}
use multi_tenant_project_man.Projects.Repository.{
  find_by_org_and_key, find_by_id as find_project, delete_row, cascade_project, cascade_tasks,
  is_task_of,
}
use multi_tenant_project_man.Projects.Service.{CreateProjectInput, create_project, delete_project}
use multi_tenant_project_man.Projects.Unused.{IsInjective}
use multi_tenant_project_man.Projects.Creation.{create_project_total}
use multi_tenant_project_man.Projects.Deletion.{delete_project_exact}
use multi_tenant_project_man.Tests.Data.{rt, number_text, team}

number_text-IsInjective : IsInjective number_text
number_text-IsInjective zero zero same = refl
number_text-IsInjective zero (suc b) same = absurd cc
number_text-IsInjective (suc a) zero same = absurd cc
number_text-IsInjective (suc a) (suc b) same = ap suc (number_text-IsInjective a b cc)

abbrev new_project : CreateProjectInput
new_project = record { name = "Press"; key = none; description = none; status = none }

no_p2 : find projects_model "p2" team.projects.0 ≡ none
unfolding find
no_p2 = refl

create_project_total_example :
    (p : Project) × ((create_project {db = rows} rt "p2" "o1" "u1" new_project team).0 ≡ ok p)
    × (find_by_org_and_key {db = rows} "o1" p.key team ≡ none)
    × (find projects_model "p2"
          (create_project {db = rows} rt "p2" "o1" "u1" new_project team).1.projects.0
        ≡ some p)
create_project_total_example =
    create_project_total {db = rows} team rt "p2" "o1" "u1" new_project number_text-IsInjective
      no_p2 refl

validate_exact_example :
    ((members : List OrganizationMember) × (validate_members {db = rows}
          (bad_request "INVALID_ASSIGNEE")
          "o1"
          (some ("u1" ∷ "u1" ∷ []))
          team
        ≡ (ok (unique ("u1" ∷ "u1" ∷ []), members), team)))
    ↔ ((z : String)
        → contains ("u1" ∷ "u1" ∷ []) z ≡ true
        → is_some (find_member {db = rows} "o1" z team) ≡ true)
validate_exact_example =
    validate_exact {db = rows} "o1" team (bad_request "INVALID_ASSIGNEE") ("u1" ∷ "u1" ∷ [])

abbrev without_press : World rows
without_press = (delete_project {db = rows} "o1" "p1" team).1

press_goes : delete_project {db = rows} "o1" "p1" team ≡ (ok tt, without_press)
unfolding delete_project delete_row delete_where cascade_project cascade_tasks is_task_of
    find_project find first select delete_many update_many or_same store_or store_if change_many
    check fits apart
press_goes = refl

delete_project_exact_example : find_project {db = rows} "o1" "p1" without_press ≡ none
delete_project_exact_example =
    (delete_project_exact {db = rows} "o1" "p1" team without_press press_goes).0
