-- ===== src/Tasks/Effects.antt =====
-- task.service.ts: which tables the steps of a handler change.
use multi_tenant_project_man.Base.{
  String, Option, none, some, List, [], ◌∷◌, ◌≡◌, refl, ◌==◌, arith, inl, inr, ◌⊎◌, if◌then◌else◌,
  map_option,
}
use multi_tenant_project_man.Base.Error.{AppError, bad_request}
use multi_tenant_project_man.Prisma.{Prisma}
use multi_tenant_project_man.Prisma.Where.{update_where, find_id-update_where, Write-cases}
use multi_tenant_project_man.Schema.Work.{Task, tasks_model}
use multi_tenant_project_man.World.{World}
use multi_tenant_project_man.Validation.{validate_members}
use multi_tenant_project_man.Tasks.Repository.{
  UpdateTaskRepoData, with_fields, replace_assignees, insert_assignees, clear_assignees, write_task,
  update_task as update_row,
}
use multi_tenant_project_man.Tasks.Service.{validate_assignees}

module _ {db : Prisma} where
  validate_members_reads :
      (refusal : AppError) (organization_id : String) (ids : Option (List String)) (w : World db)
      → (validate_members refusal organization_id ids w).1 ≡ w
  unfolding validate_members
  validate_members_reads refusal organization_id none w = refl
  validate_members_reads refusal organization_id (some []) w = refl
  validate_members_reads refusal organization_id (some (id ∷ ids)) w = ground arith

  pub validate_assignees_reads :
      (organization_id : String) (ids : Option (List String)) (w : World db)
      → (validate_assignees organization_id ids w).1 ≡ w
  unfolding validate_assignees
  validate_assignees_reads organization_id ids w =
      validate_members_reads (bad_request "INVALID_ASSIGNEE") organization_id ids w

  -- The write of a task: nothing, or its row gets the new fields.
  pub update_row_tasks :
      (new_ids : String → String) (project_id task_id : String) (fields : UpdateTaskRepoData)
      (t : Task) (w : World db) (k : String)
      → (((update_row new_ids project_id task_id fields t w).1 ≡ w)
          ⊎ (db.find_id tasks_model k (update_row new_ids project_id task_id fields t w).1.tasks ≡ (
              if task_id == k
              then map_option (with_fields fields) (db.find_id tasks_model k w.tasks)
              else db.find_id tasks_model k w.tasks)))
  unfolding update_row replace_assignees insert_assignees clear_assignees write_task
  update_row_tasks new_ids project_id task_id fields t w k =
      elim (Write-cases (
        update_where db tasks_model task_id (λ u. u.project_id == project_id) (with_fields fields)
          w.tasks)) [
            | inl (ts, e) ↦ ground (
              arith,
              find_id-update_where db tasks_model task_id (λ u. u.project_id == project_id)
                  (with_fields fields) w.tasks ts k (unfold with_fields in λ u. refl) e,
            )
            | inr (inl absent) ↦ inl (ground arith)
            | inr (inr taken) ↦ inl (ground arith)
          ]
