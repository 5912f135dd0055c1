-- ===== src/Tasks/Lists.antt =====
-- task.service.ts and task.repository.ts: the list of a project's tasks, page by page.
use multi_tenant_project_man.Base.{ℕ, String, Bool, Option, List}
use multi_tenant_project_man.Base.Monad.{Action, pure, ◌>>=◌, ◌>>◌, gets}
use multi_tenant_project_man.Pagination.Pages.{PaginatedResponse, paginate}
use multi_tenant_project_man.Prisma.{Prisma}
use multi_tenant_project_man.Schema.Work.{Task, tasks_model}
use multi_tenant_project_man.World.{World}
use multi_tenant_project_man.Tasks.Filter.{FindTasksFilter, is_listed}
use multi_tenant_project_man.Tasks.Repository.{assignees_of}
use multi_tenant_project_man.Tasks.Service.{validate_project_in_org}

-- `contains` of the database, and the order of the rows, are parameters.
module _ {db : Prisma} (contains : (part text : String) → Bool)
    (order : List Task → List Task) where
  unfoldable pub listed_tasks : String → FindTasksFilter → World db → List Task
  unfolding is_listed assignees_of
  listed_tasks project_id f w =
      db.find_many tasks_model (λ t. is_listed contains project_id f (assignees_of t.id w) t)
        w.tasks

  -- `getTasks` with `findPaginatedTasks`
  unfoldable pub get_tasks :
      (organization_id project_id : String)
      → FindTasksFilter
      → (page limit : Option ℕ) → Action (World db) (PaginatedResponse Task)
  unfolding validate_project_in_org listed_tasks paginate
  get_tasks organization_id project_id f page limit = do
    validate_project_in_org organization_id project_id
    rows ← gets (listed_tasks project_id f)
    pure (paginate order rows page limit)
