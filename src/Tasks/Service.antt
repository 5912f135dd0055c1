-- ===== src/Tasks/Service.antt =====
-- task.service.ts.
use multi_tenant_project_man.Base.{
  ◌∷◌, [], String, Option, none, List, ◌==◌, ◌&&◌, ◌||◌, ◌++◌, not, is_value, or_default, present,
  if◌then◌else◌, map_option, any,
}
use multi_tenant_project_man.Base.Double.{plus, whole}
use multi_tenant_project_man.Base.Error.{bad_request, not_found}
use multi_tenant_project_man.Base.Monad.{Action, pure, ◌>>=◌, ◌>>◌, gets, require, throw_if}
use multi_tenant_project_man.Prisma.{Prisma}
use multi_tenant_project_man.Schema.{OrganizationMember, users_model}
use multi_tenant_project_man.Schema.Work.{Project, Task, NotificationType}
use multi_tenant_project_man.World.{
  Runtime, World, Call, call_all, calls_if, each_call, log_activity, queue_notification,
  assignment_email, emit_to_project, emit_to_task, task_entity, created, deleted, ActivityAction,
}
use multi_tenant_project_man.Validation.{validate_members}
use multi_tenant_project_man.Tasks.Input.{
  CreateTaskInput, UpdateTaskInput, requested_assignees, changes_status, changes_team,
  changes_assignment, newly_added, to_fields, update_action, resolved_assignees,
}
use multi_tenant_project_man.Tasks.States.{is_valid_transition}
use multi_tenant_project_man.Tasks.Repository.{
  find_project_in_org, find_by_id, find_task_in_org, is_team_in_org, get_max_position, assignees_of,
  create_task as create_row, update_task as update_row, delete_task as delete_row,
}

-- What the log, a user and the rooms of the project and the task are told.
abbrev pub log_task : String → String → String → ActivityAction → Call
log_task organization_id user_id task_id action = log_activity (record {
  organization_id = organization_id;
  user_id = user_id;
  entity_type = task_entity;
  entity_id = task_id;
  action = action;
})

abbrev pub notify : String → String → NotificationType → Call
notify organization_id user_id type =
    queue_notification
      (record { user_id = user_id; organization_id = organization_id; type = type })

abbrev pub emit : String → String → String → String → List Call
emit organization_id project_id task_id event =
    emit_to_project organization_id project_id event
    ∷ emit_to_task organization_id task_id event
    ∷ []

-- What an assigned user is told, given the user's address; the author gets no notification.
unfoldable pub assignee_calls :
    (organization_id author_id : String) → (email_of : String → Option String) → String → List Call
assignee_calls organization_id author_id email_of user_id =
    calls_if (not (user_id == author_id))
      (notify organization_id user_id NotificationType.task_assigned ∷ [])
    ++ calls_if (present (email_of user_id))
        (assignment_email (or_default (email_of user_id) "") user_id ∷ [])

-- What is told of a changed task, after it is stored.
unfoldable pub update_calls :
    (organization_id project_id task_id : String)
    → UpdateTaskInput
    → (existing changed : Task) → Option (List String)
    → (previous : List String) → (email_of : String → Option String) → List Call
unfolding update_action assignee_calls changes_status changes_assignment newly_added
update_calls organization_id project_id task_id input existing changed assignees previous email_of =
    let status_changed = changes_status input.status existing.status in
    log_task organization_id changed.created_by_id task_id
        (update_action input existing assignees previous)
      ∷ each_call (assignee_calls organization_id changed.created_by_id email_of)
          (newly_added assignees previous)
    ++ calls_if
        (status_changed
          && (present changed.assignee_id
              && not (is_value changed.assignee_id changed.created_by_id)))
        (notify organization_id (or_default changed.assignee_id "")
            NotificationType.task_status_changed
          ∷ [])
    ++ emit organization_id project_id task_id "task.updated"
    ++ calls_if status_changed (emit organization_id project_id task_id "task.status_changed")
    ++ calls_if
        (changes_assignment assignees previous (newly_added assignees previous)
          || changes_team input.team_id existing.team_id)
        (emit organization_id project_id task_id "task.assignment_changed")

module _ {db : Prisma} where
  unfoldable pub validate_project_in_org : String → String → Action (World db) Project
  unfolding find_project_in_org
  validate_project_in_org organization_id project_id = do
    found ← gets (find_project_in_org organization_id project_id)
    require found (not_found "PROJECT_NOT_FOUND")

  unfoldable pub validate_assignees :
      String → Option (List String) → Action (World db) (List String × List OrganizationMember)
  unfolding validate_members
  validate_assignees = validate_members (bad_request "INVALID_ASSIGNEE")

  unfoldable pub validate_team : String → Option String → Action (World db) (Unit {0})
  unfolding is_team_in_org
  validate_team organization_id team_id w =
      throw_if (present team_id && not (is_team_in_org organization_id (or_default team_id "") w))
        (bad_request "INVALID_TEAM") w

  -- `memberUsers.find((u) => u.id === id)?.email`
  unfoldable pub email_of : List OrganizationMember → World db → String → Option String
  email_of members w user_id =
      if any (λ m. m.user_id == user_id) members
      then map_option (λ u. u.email) (db.find_id users_model user_id w.users)
      else none

  -- The first part of `createTask`: what it refuses, before it writes.
  unfoldable pub check_create :
      (organization_id project_id : String)
      → CreateTaskInput
      → Action (World db) (List String × List OrganizationMember)
  unfolding validate_project_in_org requested_assignees validate_assignees validate_team
  check_create organization_id project_id input = do
    validate_project_in_org organization_id project_id
    valid ←
        validate_assignees organization_id
          (requested_assignees input.assignee_user_ids input.assignee_id)
    validate_team organization_id input.team_id
    pure valid

  -- `createTask`; the database chooses the ids.
  unfoldable pub create_task :
      Runtime
      → (new_id : String) → (new_ids : String → String)
      → (organization_id project_id user_id : String) → CreateTaskInput
      → Action (World db) Task
  unfolding check_create get_max_position email_of assignee_calls
  create_task rt new_id new_ids organization_id project_id user_id input = do
    valid ← check_create organization_id project_id input
    max_position ← gets (get_max_position project_id input.status)
    task ← create_row new_ids valid.0 (record {
      id = new_id;
      project_id = project_id;
      title = rt.trim input.title;
      description = map_option rt.trim input.description;
      status = input.status;
      priority = input.priority;
      assignee_id = none;
      team_id = input.team_id;
      created_by_id = user_id;
      due_date = input.due_date;
      position = or_default input.position (plus max_position (whole 1000));
    })
    email ← gets (email_of valid.1)
    call_all (
        log_task organization_id user_id task.id created
          ∷ each_call (assignee_calls organization_id user_id email) valid.0
        ++ emit organization_id project_id task.id "task.created")
    pure task

  -- `getTaskById`, `getTaskInOrg`
  unfoldable pub get_task_by_id :
      (organization_id project_id task_id : String) → Action (World db) Task
  unfolding validate_project_in_org find_by_id
  get_task_by_id organization_id project_id task_id = do
    validate_project_in_org organization_id project_id
    found ← gets (find_by_id project_id task_id)
    require found (not_found "TASK_NOT_FOUND")

  unfoldable pub get_task_in_org : (organization_id task_id : String) → Action (World db) Task
  unfolding find_task_in_org
  get_task_in_org organization_id task_id = do
    found ← gets (find_task_in_org organization_id task_id)
    require found (not_found "TASK_NOT_FOUND")

  -- The checks of the team and of the status.
  unfoldable pub check_fields :
      (organization_id : String)
      → UpdateTaskInput
      → Task
      → List String × List OrganizationMember
      → Action (World db) (Task × List String × List OrganizationMember)
  unfolding validate_team is_valid_transition
  check_fields organization_id input existing valid = do
    validate_team organization_id (or_default input.team_id none)
    throw_if (not (is_valid_transition existing.status input.status))
        (bad_request "INVALID_STATUS_TRANSITION")
    pure (existing, valid.0, valid.1)

  -- The first part of `updateTask`: what it refuses, before it writes.
  unfoldable pub check_update :
      (organization_id project_id task_id : String)
      → UpdateTaskInput
      → Action (World db) (Task × List String × List OrganizationMember)
  unfolding get_task_by_id requested_assignees validate_assignees check_fields
  check_update organization_id project_id task_id input = do
    existing ← get_task_by_id organization_id project_id task_id
    valid ←
        validate_assignees organization_id
          (requested_assignees input.assignee_user_ids input.assignee_id)
    check_fields organization_id input existing valid

  -- `updateTask`
  unfoldable pub update_task :
      Runtime
      → (new_ids : String → String) → (organization_id project_id task_id : String)
      → UpdateTaskInput
      → Action (World db) Task
  unfolding check_update email_of update_calls requested_assignees resolved_assignees
  update_task rt new_ids organization_id project_id task_id input = do
    (existing, ids, members) ← check_update organization_id project_id task_id input
    previous ← gets (assignees_of task_id)
    let assignees =
        resolved_assignees (requested_assignees input.assignee_user_ids input.assignee_id) ids
    changed ← update_row new_ids project_id task_id (to_fields rt input assignees) existing
    email ← gets (email_of members)
    call_all (
        update_calls organization_id project_id task_id input existing changed assignees previous
          email)
    pure changed

  -- `deleteTask`
  unfoldable pub delete_task :
      (organization_id project_id task_id : String) → Action (World db) (Unit {0})
  unfolding get_task_by_id
  delete_task organization_id project_id task_id = do
    existing ← get_task_by_id organization_id project_id task_id
    delete_row project_id task_id
    call_all (
        log_task organization_id existing.created_by_id task_id deleted
        ∷ emit organization_id project_id task_id "task.deleted")
