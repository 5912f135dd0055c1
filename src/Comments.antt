-- ===== src/Comments.antt =====
-- modules/comments: comment.repository.ts and comment.service.ts.
pub mod Moderation
use multi_tenant_project_man.Base.{
  ℕ, String, Bool, Option, none, some, List, [], ◌∷◌, ◌++◌, ◌==◌, ◌&&◌, ◌||◌, not, is_some,
  is_value, or_default, present,
}
use multi_tenant_project_man.Base.Error.{not_found, forbidden}
use multi_tenant_project_man.Base.Monad.{Action, pure, ◌>>=◌, ◌>>◌, gets, require, throw_if}
use multi_tenant_project_man.Pagination.Pages.{PaginatedResponse, paginate}
use multi_tenant_project_man.Prisma.{Prisma}
use multi_tenant_project_man.Prisma.Where.{update_where, delete_where}
use multi_tenant_project_man.Schema.{OrganizationRole, owner, admin, same_role}
use multi_tenant_project_man.Schema.Work.{
  Task, Comment, tasks_model, comments_model, NotificationType,
}
use multi_tenant_project_man.World.{
  Runtime, World, Call, call_all, calls_if, write, log_activity, queue_notification, emit_to_task,
  emit_to_project, comment_entity, created, updated, deleted, ActivityAction,
}
use multi_tenant_project_man.Tasks.Repository.{is_project_in}

abbrev log_comment : String → String → String → ActivityAction → Call
log_comment organization_id user_id comment_id action = log_activity (record {
  organization_id = organization_id;
  user_id = user_id;
  entity_type = comment_entity;
  entity_id = comment_id;
  action = action;
})

abbrev emit : String → String → String → String → List Call
emit organization_id project_id task_id event =
    emit_to_task organization_id task_id event
    ∷ emit_to_project organization_id project_id event
    ∷ []

module _ {db : Prisma} where
  -- `validateTaskInOrg` of the repository
  unfoldable pub find_task : (organization_id project_id task_id : String) → World db → Option Task
  unfolding is_project_in
  find_task organization_id project_id task_id w =
      db.find_first tasks_model
        (λ t.
          t.id == task_id
          && (t.project_id == project_id && is_project_in organization_id w t.project_id))
        w.tasks

  unfoldable pub find_comment_by_id : (task_id comment_id : String) → World db → Option Comment
  find_comment_by_id task_id comment_id w =
      db.find_first comments_model (λ c. c.id == comment_id && c.task_id == task_id) w.comments

  unfoldable pub insert_comment : Comment → Action (World db) Comment
  insert_comment c w =
      write (db.create comments_model c w.comments) (λ cs v. record v { comments = cs }) c w

  unfoldable pub update_row :
      (task_id comment_id content : String) → Comment → Action (World db) Comment
  update_row task_id comment_id content c w =
      write
        (update_where db comments_model comment_id (λ d. d.task_id == task_id)
          (λ d. record d { content = content }) w.comments)
        (λ cs v. record v { comments = cs }) (record c { content = content }) w

  unfoldable pub delete_row : (task_id comment_id : String) → Action (World db) (Unit {0})
  delete_row task_id comment_id w =
      write (delete_where db comments_model comment_id (λ d. d.task_id == task_id) w.comments)
        (λ cs v. record v { comments = cs }) tt w

  unfoldable pub validate_task_in_org :
      (organization_id project_id task_id : String) → Action (World db) Task
  unfolding find_task
  validate_task_in_org organization_id project_id task_id = do
    found ← gets (find_task organization_id project_id task_id)
    require found (not_found "TASK_NOT_FOUND")

  -- `createComment`; the database chooses the id. The assignee hears of it, but not of an own
  -- comment.
  unfoldable pub create_comment :
      Runtime
      → (new_id organization_id project_id task_id user_id content : String)
      → Action (World db) Comment
  unfolding validate_task_in_org insert_comment
  create_comment rt new_id organization_id project_id task_id user_id content = do
    task ← validate_task_in_org organization_id project_id task_id
    comment ←
        insert_comment
          (record { id = new_id; task_id = task_id; user_id = user_id; content = rt.trim content })
    call_all (
        log_comment organization_id user_id comment.id created
          ∷ calls_if (present task.assignee_id && not (is_value task.assignee_id user_id)) (
              queue_notification (record {
                user_id = or_default task.assignee_id "";
                organization_id = organization_id;
                type = NotificationType.general;
              })
              ∷ [])
        ++ emit organization_id project_id task_id "comment.created")
    pure comment

  unfoldable pub get_comment :
      (organization_id project_id task_id comment_id : String) → Action (World db) Comment
  unfolding validate_task_in_org find_comment_by_id
  get_comment organization_id project_id task_id comment_id = do
    validate_task_in_org organization_id project_id task_id
    found ← gets (find_comment_by_id task_id comment_id)
    require found (not_found "COMMENT_NOT_FOUND")

  -- `updateComment`
  unfoldable pub update_comment :
      Runtime
      → (organization_id project_id task_id comment_id user_id content : String)
      → Action (World db) Comment
  unfolding get_comment update_row
  update_comment rt organization_id project_id task_id comment_id user_id content = do
    comment ← get_comment organization_id project_id task_id comment_id
    throw_if (not (comment.user_id == user_id)) (forbidden "INSUFFICIENT_PERMISSIONS")
    changed ← update_row task_id comment_id (rt.trim content) comment
    call_all (
        log_comment organization_id user_id comment_id updated
        ∷ emit organization_id project_id task_id "comment.updated")
    pure changed

  -- `deleteComment`, by a member of that role
  unfoldable pub delete_comment :
      (organization_id project_id task_id comment_id user_id : String)
      → OrganizationRole
      → Action (World db) (Unit {0})
  unfolding get_comment delete_row
  delete_comment organization_id project_id task_id comment_id user_id role = do
    comment ← get_comment organization_id project_id task_id comment_id
    throw_if
        (not (comment.user_id == user_id) && not (same_role role owner || same_role role admin))
        (forbidden "INSUFFICIENT_PERMISSIONS")
    delete_row task_id comment_id
    call_all (
        log_comment organization_id user_id comment_id deleted
        ∷ emit organization_id project_id task_id "comment.deleted")

  -- `getComments` with `findPaginatedComments`; the order of the rows is a parameter.
  unfoldable pub get_comments :
      (order : List Comment → List Comment)
      → (organization_id project_id task_id : String) → (page limit : Option ℕ)
      → Action (World db) (PaginatedResponse Comment)
  unfolding validate_task_in_org paginate
  get_comments order organization_id project_id task_id page limit = do
    validate_task_in_org organization_id project_id task_id
    rows ← gets (λ w. db.find_many comments_model (λ c. c.task_id == task_id) w.comments)
    pure (paginate order rows page limit)
