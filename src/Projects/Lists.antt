-- ===== src/Projects/Lists.antt =====
-- project.service.ts and project.repository.ts: one project, and the list of an organization's
-- projects, each from the cache where it is there.
use multi_tenant_project_man.Base.{
  ℕ, String, Bool, true, false, Option, none, some, List, ◌==◌, ◌&&◌, ◌||◌, present, or_default,
  if◌then◌else◌,
}
use multi_tenant_project_man.Base.Error.{not_found}
use multi_tenant_project_man.Base.Monad.{Action, pure, ◌>>=◌, gets, require}
use multi_tenant_project_man.CacheKeys
use multi_tenant_project_man.Caching.{get_or_set, project_ttl, projects_list_ttl}
use multi_tenant_project_man.Pagination.Pages.{PaginatedResponse, paginate}
use multi_tenant_project_man.Prisma.{Prisma}
use multi_tenant_project_man.Schema.Work.{Project, ProjectStatus, active, archived, projects_model}
use multi_tenant_project_man.World.{World}
use multi_tenant_project_man.Projects.Repository.{find_by_id}

pub record ListProjectsQuery : Type 0 where
  pub page : Option ℕ
  pub limit : Option ℕ
  pub status : Option ProjectStatus
  pub search : Option String

abbrev is_project_status : Option ProjectStatus → ProjectStatus → Bool
is_project_status none s = true
is_project_status (some active) active = true
is_project_status (some archived) archived = true
is_project_status _ _ = false

-- `contains` of the database, and the order of the rows, are parameters, like the text of a query.
module _ {db : Prisma} (contains : (part text : String) → Bool)
    (order : List Project → List Project) (query_text : ListProjectsQuery → String) where
  -- `findPaginatedProjects`, before the page is taken
  unfoldable pub find_projects : String → ListProjectsQuery → World db → List Project
  find_projects organization_id query w =
      db.find_many projects_model
        (λ p.
          p.organization_id == organization_id
          && (is_project_status query.status p.status
              && (if present query.search
                  then contains (or_default query.search "") p.name
                    || contains (or_default query.search "") p.key
                  else true)))
        w.projects

  -- `getProjects`
  unfoldable pub get_projects :
      (cached : Option (PaginatedResponse Project))
      → String
      → ListProjectsQuery
      → Action (World db) (PaginatedResponse Project)
  unfolding find_projects get_or_set paginate
  get_projects cached organization_id query =
      get_or_set (CacheKeys.projects_list organization_id (query_text query)) cached
        (do
          items ← gets (find_projects organization_id query)
          pure (paginate order items query.page query.limit))
        projects_list_ttl

-- `getProjectById`
unfoldable pub get_project_by_id :
    {db : Prisma}
    → (cached : Option Project) → (organization_id project_id : String) → Action (World db) Project
unfolding find_by_id get_or_set
get_project_by_id cached organization_id project_id =
    get_or_set (CacheKeys.project organization_id project_id) cached
      (do
        found ← gets (find_by_id organization_id project_id)
        require found (not_found "PROJECT_NOT_FOUND"))
      project_ttl
