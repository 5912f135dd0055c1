-- ===== src/Tasks/Input.antt =====
-- task.service.ts: what is asked for, and what it changes.
use multi_tenant_project_man.Base.{
  ℕ, String, Bool, false, Option, none, some, List, [], ◌∷◌, ◌||◌, not, is_some, is_value,
  or_default, present, if◌then◌else◌, map_option, length, nat_eq,
}
use multi_tenant_project_man.Base.Double.{Double}
use multi_tenant_project_man.Base.Lists.{contains, filter}
use multi_tenant_project_man.Schema.Work.{Task, TaskStatus, TaskPriority, same_status}
use multi_tenant_project_man.World.{Runtime, updated, ActivityAction}
use multi_tenant_project_man.Tasks.Repository.{UpdateTaskRepoData}

pub record CreateTaskInput : Type 0 where
  pub title : String
  pub description : Option String
  pub status : TaskStatus
  pub priority : TaskPriority
  pub assignee_id : Option (Option String)
  pub assignee_user_ids : Option (List String)
  pub team_id : Option String
  pub due_date : Option ℕ
  pub position : Option Double

pub record UpdateTaskInput : Type 0 where
  pub title : Option String
  pub description : Option (Option String)
  pub status : Option TaskStatus
  pub priority : Option TaskPriority
  pub assignee_id : Option (Option String)
  pub assignee_user_ids : Option (List String)
  pub team_id : Option (Option String)
  pub due_date : Option (Option ℕ)
  pub position : Option Double

-- The assignees that are asked for: the list, or the one user, or none of both.
unfoldable pub requested_assignees :
    Option (List String) → Option (Option String) → Option (List String)
requested_assignees (some ids) one = some ids
requested_assignees none none = none
requested_assignees none (some id) = some (if present id then or_default id "" ∷ [] else [])

-- `input.status && input.status !== existing.status`
unfoldable pub changes_status : Option TaskStatus → TaskStatus → Bool
unfolding same_status
changes_status none from = false
changes_status (some to) from = not (same_status to from)

-- `teamId !== undefined && teamId !== existing.teamId`
abbrev pub changes_team : Option (Option String) → Option String → Bool
changes_team none old = false
changes_team (some none) old = is_some old
changes_team (some (some id)) old = not (is_value old id)

-- The condition of the action TASK_ASSIGNED and of the event `task.assignment_changed`.
unfoldable pub changes_assignment : Option (List String) → (previous new : List String) → Bool
changes_assignment none previous new = false
changes_assignment (some ids) previous new =
    not (nat_eq (length ids) (length previous)) || not (nat_eq (length new) 0)

-- Newly added members: those asked for that the task did not have.
unfoldable pub newly_added : Option (List String) → (previous : List String) → List String
newly_added none previous = []
newly_added (some ids) previous = filter (λ id. not (contains previous id)) ids

-- The fields of `updateTask` that are given to the repository.
unfoldable pub to_fields : Runtime → UpdateTaskInput → Option (List String) → UpdateTaskRepoData
to_fields rt input assignees = record {
  title = if present input.title then map_option rt.trim input.title else none;
  description =
      map_option (λ d. if present d then map_option rt.trim d else none) input.description;
  status = input.status;
  priority = input.priority;
  assignee_id = none;
  assignee_user_ids = assignees;
  team_id = input.team_id;
  due_date = input.due_date;
  position = input.position;
}

-- The action that the log gets.
unfoldable pub update_action :
    UpdateTaskInput → Task → Option (List String) → List String → ActivityAction
unfolding changes_status changes_assignment newly_added
update_action input existing assignees previous =
    if changes_status input.status existing.status
    then ActivityAction.task_status_changed
    else if changes_assignment assignees previous (newly_added assignees previous)
        || changes_team input.team_id existing.team_id
    then ActivityAction.task_assigned
    else updated

-- The ids of `validateAssignees` are given to the repository only where assignees are asked for.
unfoldable pub resolved_assignees : Option (List String) → List String → Option (List String)
resolved_assignees none ids = none
resolved_assignees (some asked) ids = some ids
