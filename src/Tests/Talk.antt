-- ===== src/Tests/Talk.antt =====
-- Changes of tasks, comments, notifications, teams, pages and registration at work.
use multi_tenant_project_man.Base.{
  ◌-◌, ℕ, true, none, some, List, [], ◌∷◌, ◌++◌, if◌then◌else◌, ◌≡◌, refl, ◌==◌, is_some, ne_of_==,
  Bool-cases,
}
use multi_tenant_project_man.Base.Double.{plus, whole, at_most}
use multi_tenant_project_man.Base.Monad.{ok}
use multi_tenant_project_man.Prisma.Rows.Client.{
  rows, create, update, update_if, delete_many, or_same, store_or, store_if,
}
use multi_tenant_project_man.Prisma.Rows.Lists.{find, first, select, check, fits, change, apart}
use multi_tenant_project_man.Prisma.Where.{update_where, create_many}
use multi_tenant_project_man.Schema.{member}
use multi_tenant_project_man.Schema.Work.{
  Task, in_progress, todo, low, projects_model, tasks_model, comments_model, notifications_model,
  same_status,
}
use multi_tenant_project_man.World.{World}
use multi_tenant_project_man.Validation.{validate_members, org_members}
use multi_tenant_project_man.Tasks.States.{is_valid_transition, valid_status_transitions}
use multi_tenant_project_man.Tasks.Repository.{
  find_project_in_org, find_by_id, is_project_in, is_team_in_org, get_max_position,
  insert_assignees, clear_assignees, insert_task, create_task as create_row, replace_assignees,
  write_task, update_task as update_row, with_fields, primary_assignee,
}
use multi_tenant_project_man.Tasks.Input.{
  CreateTaskInput, UpdateTaskInput, requested_assignees, to_fields, resolved_assignees,
}
use multi_tenant_project_man.Tasks.Service.{
  create_task, update_task, check_create, check_update, check_fields, validate_project_in_org,
  validate_assignees, validate_team, email_of, get_task_by_id,
}
use multi_tenant_project_man.Tasks.Guarded.{status_after_update, other_tasks_after_update}
use multi_tenant_project_man.Tasks.Created.{create_task_checked}
use multi_tenant_project_man.Comments.{delete_comment, find_task, find_comment_by_id}
use multi_tenant_project_man.Comments.Moderation.{others_after_delete}
use multi_tenant_project_man.Encryption.{
  Cipher, IsCipher, encrypt_token, decrypt_token, decrypt-encrypt,
}
use multi_tenant_project_man.Schema.Work.{Team}
use multi_tenant_project_man.Teams.{CreateTeamInput, create_row as create_team_row}
use multi_tenant_project_man.Pagination.{min}
use multi_tenant_project_man.RateLimit.{RateLimiterOptions, passed, passed_exact}
use multi_tenant_project_man.Base.Error.{app, conflict}
use multi_tenant_project_man.Base.Monad.{err}
use multi_tenant_project_man.Organizations.Repository.{find_user_by_email}
use multi_tenant_project_man.Auth.Register.{RegisterInput, RegisterDraws, register}
use multi_tenant_project_man.Tests.Data.{
  context, rt, team, task, other_task, other_project, comment, message,
}

abbrev started : UpdateTaskInput
started = record {
  title = none;
  description = none;
  status = some in_progress;
  priority = none;
  assignee_id = none;
  assignee_user_ids = some ("u1" ∷ "u2" ∷ []);
  team_id = none;
  due_date = none;
  position = none;
}

abbrev after_start : World rows
after_start = (update_task {db = rows} rt (λ u. u) "o1" "p1" "t1" started team).1

abbrev started_task : Task
started_task = record task { status = in_progress }

stored_t1 : find tasks_model "t1" team.tasks.0 ≡ some task
unfolding find
stored_t1 = refl

stored_t9 : find tasks_model "t9" team.tasks.0 ≡ some other_task
unfolding find
stored_t9 = refl

stored_p9 : find projects_model "p9" team.projects.0 ≡ some other_project
unfolding find
stored_p9 = refl

starts : find tasks_model "t1" after_start.tasks.0 ≡ some started_task
unfolding update_task check_update check_fields get_task_by_id validate_project_in_org
    find_project_in_org find_by_id requested_assignees validate_assignees validate_members
    org_members validate_team is_team_in_org is_valid_transition valid_status_transitions
    same_status resolved_assignees update_row replace_assignees insert_assignees clear_assignees
    write_task update_where create_many with_fields to_fields primary_assignee email_of find first
    select delete_many create update update_if or_same store_or store_if change check fits apart
    Bool-cases
starts = refl

status_after_update_example : is_valid_transition todo (some in_progress) ≡ true
status_after_update_example =
    status_after_update {db = rows} rt (λ u. u) "o1" "p1" "t1" started team "t1" task started_task
      stored_t1 starts

other_tasks_after_update_example : find tasks_model "t9" after_start.tasks.0 ≡ some other_task
other_tasks_after_update_example =
    other_tasks_after_update {db = rows} rt (λ u. u) "o1" "p1" "t1" started team "t9" other_task
      other_project stored_t9 stored_p9 (ne_of_== "o2" "o1" refl)

abbrev wanted : CreateTaskInput
wanted = record {
  title = "Bind";
  description = none;
  status = todo;
  priority = low;
  assignee_id = none;
  assignee_user_ids = some ("u2" ∷ "u1" ∷ "u2" ∷ []);
  team_id = none;
  due_date = none;
  position = none;
}

abbrev bound_task : Task
bound_task = record task {
  id = "t2";
  title = "Bind";
  assignee_id = some "u2";
  position = whole 2000;
}

task_is_created :
    (create_task {db = rows} rt "t2" (λ u. u) "o1" "p1" "u1" wanted team).0 ≡ ok bound_task
unfolding create_task check_create validate_project_in_org find_project_in_org requested_assignees
    validate_assignees validate_members org_members validate_team is_team_in_org same_status
    get_max_position plus whole at_most create_row insert_task insert_assignees create_many find
    first select create store_or store_if check fits apart Bool-cases
task_is_created = refl

create_task_checked_example : is_some (find_project_in_org {db = rows} "o1" "p1" team) ≡ true
create_task_checked_example =
    (create_task_checked {db = rows} team rt "t2" (λ u. u) "o1" "p1" "u1" wanted bound_task
      task_is_created).1

stored_c1 : find comments_model "c1" team.comments.0 ≡ some comment
unfolding find
stored_c1 = refl

others_after_delete_example :
    find comments_model "c1"
      (delete_comment {db = rows} "o1" "p1" "t1" "c1" "u9" member team).1.comments.0
    ≡ some comment
others_after_delete_example =
    others_after_delete {db = rows} "o1" "p1" "t1" "c1" "u9" team "c1" comment stored_c1 member
      (ne_of_== "u2" "u9" refl) refl

on_t1 : find_task {db = rows} "o1" "p1" "t1" team ≡ some task
unfolding find_task is_project_in first find
on_t1 = refl

found_c1 : find_comment_by_id {db = rows} "t1" "c1" team ≡ some comment
unfolding find_comment_by_id first
found_c1 = refl

stored_n1 : find notifications_model "n1" team.notifications.0 ≡ some message
unfolding find
stored_n1 = refl

-- A cipher of one token.
abbrev vector : List ℕ
vector = 0 ∷ 1 ∷ 2 ∷ 3 ∷ 4 ∷ 5 ∷ 6 ∷ 7 ∷ 8 ∷ 9 ∷ 10 ∷ 11 ∷ []

abbrev tag : List ℕ
tag = 1 ∷ 1 ∷ 1 ∷ 1 ∷ 1 ∷ 1 ∷ 1 ∷ 1 ∷ 1 ∷ 1 ∷ 1 ∷ 1 ∷ 1 ∷ 1 ∷ 1 ∷ 1 ∷ []

abbrev payload : List ℕ
payload = vector ++ (tag ++ 99 ∷ [])

abbrev cipher : Cipher
cipher = record {
  encrypt = λ iv text. (99 ∷ [], tag);
  decrypt = λ iv auth_tag bytes. some "token";
  to_base64 = λ bytes. "payload";
  from_base64 = λ text. if text == "payload" then payload else [];
}

cipher-IsCipher : IsCipher cipher vector "token"
cipher-IsCipher = record {
  decrypt-encrypt = refl;
  length-tag = refl;
  from_base64-to_base64 = refl;
  from_base64-empty = refl;
}

decrypt-encrypt_example : decrypt_token cipher (encrypt_token cipher vector "token") ≡ some "token"
decrypt-encrypt_example = decrypt-encrypt cipher vector "token" cipher-IsCipher refl

abbrev wanted_team : CreateTeamInput
wanted_team = record {
  name = "Binders";
  description = none;
  member_user_ids = some ("u1" ∷ "u2" ∷ "u1" ∷ []);
}

abbrev binders : Team
binders = record { id = "g1"; organization_id = "o1"; name = "Binders"; description = none }

-- authRateLimiter
abbrev limits : RateLimiterOptions
limits = record { window_seconds = 900; max_requests = 20 }

passed_exact_example : passed limits (λ n. none) 0 500 ≡ min 500 (20 - 0)
passed_exact_example = passed_exact limits (λ n. none) 0 500

abbrev taken_address : RegisterInput
taken_address = record {
  name = "Ann";
  email = "ann@x.io";
  password = "secret";
  organization_name = "Y";
}

abbrev draws : RegisterDraws
draws = record {
  user_id = "u7";
  organization_id = "o7";
  member_id = "m7";
  tokens = record { jti = "j7"; token_id = "t7"; session_id = "s7" };
  salt = "salt";
  slug_suffix = "abc";
}

address_is_taken :
    (register {db = rows} rt 1000 draws taken_address context team).0
    ≡ err (app (conflict "USER_ALREADY_EXISTS"))
unfolding register find_user_by_email first
address_is_taken = refl
