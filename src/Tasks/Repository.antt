-- ===== src/Tasks/Repository.antt =====
-- task.repository.ts: queries and writes.
use multi_tenant_project_man.Base.{
  ℕ, String, Bool, false, Option, none, some, List, [], ◌∷◌, ◌==◌, ◌&&◌, is_some, or_default,
  if◌then◌else◌, map, present,
}
use multi_tenant_project_man.Base.Double.{Double, at_most, whole}
use multi_tenant_project_man.Base.Lists.{head}
use multi_tenant_project_man.Base.Monad.{Action, pure, ◌>>=◌, ◌>>◌, transaction}
use multi_tenant_project_man.Prisma.{Prisma}
use multi_tenant_project_man.Prisma.Where.{update_where, delete_where, create_many}
use multi_tenant_project_man.Schema.Work.{
  Project, Task, TaskAssignee, TaskStatus, TaskPriority, same_status, projects_model, tasks_model,
  teams_model, assignees_model,
}
use multi_tenant_project_man.World.{World, write}
use multi_tenant_project_man.Projects.Repository.{cascade_tasks}

-- A field that may be left out is an option; one that may also be null is an option of an option.
pub record UpdateTaskRepoData : Type 0 where
  pub title : Option String
  pub description : Option (Option String)
  pub status : Option TaskStatus
  pub priority : Option TaskPriority
  pub assignee_id : Option (Option String)
  pub assignee_user_ids : Option (List String)
  pub team_id : Option (Option String)
  pub due_date : Option (Option ℕ)
  pub position : Option Double

abbrev pub higher : Double → Option Double → Double
higher x none = x
higher x (some y) = if at_most x y then y else x

-- The position of the first of some tasks in the order `position: 'desc'`.
abbrev pub highest : List Task → Option Double
highest [] = none
highest (t ∷ ts) = some (higher t.position (highest ts))

-- The rows of a task's assignees; the database chooses their ids.
abbrev pub assignee_rows : (new_ids : String → String) → String → List String → List TaskAssignee
assignee_rows new_ids task_id user_ids =
    map (λ u. record { id = new_ids u; task_id = task_id; user_id = u }) user_ids

-- `primaryAssigneeId` of `updateTask`
unfoldable pub primary_assignee : UpdateTaskRepoData → Option (Option String)
primary_assignee fields = elim fields.assignee_user_ids [
  | some ids ↦ some (head ids)
  | none ↦ fields.assignee_id
]

-- `updateData`
unfoldable pub with_fields : UpdateTaskRepoData → Task → Task
unfolding primary_assignee
with_fields fields t = record t {
  title = or_default fields.title t.title;
  description = or_default fields.description t.description;
  status = or_default fields.status t.status;
  priority = or_default fields.priority t.priority;
  assignee_id = or_default (primary_assignee fields) t.assignee_id;
  team_id = or_default fields.team_id t.team_id;
  due_date = or_default fields.due_date t.due_date;
  position = or_default fields.position t.position;
}

module _ {db : Prisma} where
  unfoldable pub find_project_in_org : String → String → World db → Option Project
  find_project_in_org organization_id project_id w =
      db.find_first projects_model (λ p. p.id == project_id && p.organization_id == organization_id)
        w.projects

  unfoldable pub find_by_id : String → String → World db → Option Task
  find_by_id project_id task_id w =
      db.find_first tasks_model (λ t. t.id == task_id && t.project_id == project_id) w.tasks

  -- The organization of a task is that of its project.
  unfoldable pub is_project_in : String → World db → String → Bool
  is_project_in organization_id w project_id =
      elim (db.find_id projects_model project_id w.projects) [
        | none ↦ false
        | some p ↦ p.organization_id == organization_id
      ]

  unfoldable pub find_task_in_org : String → String → World db → Option Task
  unfolding is_project_in
  find_task_in_org organization_id task_id w =
      db.find_first tasks_model
        (λ t. t.id == task_id && is_project_in organization_id w t.project_id) w.tasks

  unfoldable pub is_team_in_org : String → String → World db → Bool
  is_team_in_org organization_id team_id w = is_some (
      db.find_first teams_model (λ t. t.id == team_id && t.organization_id == organization_id)
        w.teams)

  unfoldable pub get_max_position : String → TaskStatus → World db → Double
  unfolding same_status
  get_max_position project_id status w =
      or_default
        (highest (
          db.find_many tasks_model (λ t. t.project_id == project_id && same_status t.status status)
            w.tasks))
        (whole 0)

  -- The users of a task's assignees.
  unfoldable pub assignees_of : String → World db → List String
  assignees_of task_id w =
      map (λ a. a.user_id) (db.find_many assignees_model (λ a. a.task_id == task_id) w.assignees)

  unfoldable pub insert_assignees :
      (new_ids : String → String) → String → List String → Action (World db) (Unit {0})
  insert_assignees new_ids task_id user_ids w =
      write (create_many db assignees_model (assignee_rows new_ids task_id user_ids) w.assignees)
        (λ t v. record v { assignees = t }) tt w

  unfoldable pub clear_assignees : String → Action (World db) (Unit {0})
  clear_assignees task_id w = pure tt (record w {
    assignees = db.delete_many assignees_model (λ a. a.task_id == task_id) w.assignees;
  })

  unfoldable pub insert_task : Task → Action (World db) Task
  insert_task t w = write (db.create tasks_model t w.tasks) (λ ts v. record v { tasks = ts }) t w

  -- `createTask`: the row with its assignees, in one transaction; the first assignee is the primary
  -- one.
  unfoldable pub create_task :
      (new_ids : String → String)
      → (assignee_user_ids : List String) → Task
      → Action (World db) Task
  create_task new_ids assignee_user_ids t = transaction (do
    task ← insert_task (record t { assignee_id = head assignee_user_ids })
    insert_assignees new_ids t.id assignee_user_ids
    pure task)

  unfoldable pub replace_assignees :
      (new_ids : String → String) → String → UpdateTaskRepoData → Action (World db) (Unit {0})
  replace_assignees new_ids task_id fields = elim fields.assignee_user_ids [
    | some ids ↦ clear_assignees task_id >> insert_assignees new_ids task_id ids
    | none ↦ elim fields.assignee_id [
      | none ↦ pure tt
      | some id ↦
          clear_assignees task_id
          >> insert_assignees new_ids task_id (if present id then or_default id "" ∷ [] else [])
    ]
  ]

  unfoldable pub write_task :
      (project_id task_id : String) → UpdateTaskRepoData → Task → Action (World db) Task
  unfolding with_fields
  write_task project_id task_id fields t w =
      write
        (update_where db tasks_model task_id (λ u. u.project_id == project_id) (with_fields fields)
          w.tasks)
        (λ ts v. record v { tasks = ts }) (with_fields fields t) w

  -- `updateTask`, of the task that was found.
  unfoldable pub update_task :
      (new_ids : String → String)
      → (project_id task_id : String) → UpdateTaskRepoData
      → Task
      → Action (World db) Task
  update_task new_ids project_id task_id fields t =
      transaction
        (do replace_assignees new_ids task_id fields; write_task project_id task_id fields t)

  -- `deleteTask`, with what the foreign keys do.
  unfoldable pub delete_task : (project_id task_id : String) → Action (World db) (Unit {0})
  unfolding cascade_tasks
  delete_task project_id task_id w =
      write (delete_where db tasks_model task_id (λ t. t.project_id == project_id) w.tasks)
        (λ ts v. cascade_tasks (λ id. id == task_id) (record v { tasks = ts })) tt w
