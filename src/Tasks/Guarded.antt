-- ===== src/Tasks/Guarded.antt =====
-- task.service.ts: what an update of a task may change.
use multi_tenant_project_man.Base.{
  String, true, false, Option, some, List, ◌≡◌, ◌≢◌, ◌==◌, eq_iff, arith, Option-cases, inl, inr,
  ◌⊎◌, if◌then◌else◌, is_some, map_option, ap, ◌∙◌, subst,
}
use multi_tenant_project_man.Base.Monad.{ok, Result-cases, bind_ok}
use multi_tenant_project_man.Prisma.{Prisma}
use multi_tenant_project_man.Schema.Work.{Project, Task, tasks_model, projects_model}
use multi_tenant_project_man.Schema.{OrganizationMember}
use multi_tenant_project_man.World.{Runtime, World}
use multi_tenant_project_man.Tasks.States.{is_valid_transition, same_status_refl}
use multi_tenant_project_man.Tasks.Repository.{with_fields, find_by_id, find_project_in_org}
use multi_tenant_project_man.Tasks.Input.{
  UpdateTaskInput, to_fields, requested_assignees, resolved_assignees,
}
use multi_tenant_project_man.Tasks.Service.{
  validate_team, get_task_by_id, validate_project_in_org, update_task, check_update, check_fields,
}
use multi_tenant_project_man.Tasks.Effects.{validate_assignees_reads, update_row_tasks}

module _ {db : Prisma} (rt : Runtime) (new_ids : String → String)
    (organization_id project_id task_id : String) (input : UpdateTaskInput) (w : World db) where
  abbrev after : World db
  after = (update_task rt new_ids organization_id project_id task_id input w).1

  -- The guards of an update that writes.
  abbrev Guards : Task → Type 0
  Guards t =
      (find_by_id project_id task_id w ≡ some t)
      × (is_some (find_project_in_org organization_id project_id w) ≡ true)
      × (is_valid_transition t.status input.status ≡ true)

  check_update_reads : (check_update organization_id project_id task_id input w).1 ≡ w
  unfolding check_update check_fields get_task_by_id validate_project_in_org validate_team
  check_update_reads = ground (
    arith,
    validate_assignees_reads organization_id
        (requested_assignees input.assignee_user_ids input.assignee_id) w,
  )

  get_task_found :
      (t : Task)
      → (get_task_by_id organization_id project_id task_id w).0 ≡ ok t
      → (is_some (find_project_in_org organization_id project_id w) ≡ true)
        × (find_by_id project_id task_id w ≡ some t)
  unfolding get_task_by_id validate_project_in_org
  get_task_found t passed = (ground arith, ground arith)

  check_fields_ok :
      (u t : Task) (valid : List String × List OrganizationMember) (ids : List String)
      (members : List OrganizationMember) (v : World db)
      → (check_fields organization_id input u valid v).0 ≡ ok (t, ids, members)
      → (u ≡ t) × (is_valid_transition t.status input.status ≡ true)
  unfolding check_fields validate_team
  check_fields_ok u t valid ids members v passed = (ground arith, ground arith)

  check_update-Guards :
      (t : Task) (ids : List String) (members : List OrganizationMember)
      → (check_update organization_id project_id task_id input w).0 ≡ ok (t, ids, members)
      → Guards t
  unfolding check_update
  check_update-Guards t ids members passed =
      let (u, got, rest) = bind_ok _ _ _ _ passed in
      let (valid, validated, rest') =
        bind_ok {S = World db} {A = List String × List OrganizationMember} _
          (check_fields organization_id input u) _ _ rest in
      let (same, allowed) = check_fields_ok u t valid ids members _ rest' in
      let (project, found) = get_task_found u got in (found ∙ ap some same, project, allowed)

  kept_status : (t : Task) → is_valid_transition t.status (some t.status) ≡ true
  unfolding is_valid_transition
  kept_status t = ground (arith, same_status_refl t.status)

  new_status :
      (t : Task) (ids : Option (List String))
      → is_valid_transition t.status input.status ≡ true
      → is_valid_transition t.status (some (with_fields (to_fields rt input ids) t).status) ≡ true
  unfolding with_fields to_fields
  new_status t ids allowed = elim (Option-cases input.status) [
    | inl absent ↦ rw absent (kept_status t)
    | inr (s, given) ↦ rw given (subst (λ o. is_valid_transition t.status o ≡ true) given allowed)
  ]

  found_row :
      (t : Task)
      → find_by_id project_id task_id w ≡ some t
      → (db.find_id tasks_model task_id w.tasks ≡ some t) × (t.project_id ≡ project_id)
  unfolding find_by_id
  found_row t found =
      let (holds, stored) = db.find_first_sound tasks_model _ w.tasks t found in
      (ground (arith, eq_iff t.id task_id), ground (arith, eq_iff t.project_id project_id))

  not_theirs :
      (p : Project)
      → p.organization_id ≢ organization_id
      → db.find_id projects_model project_id w.projects ≡ some p
      → is_some (find_project_in_org organization_id project_id w) ≡ false
  unfolding find_project_in_org
  not_theirs p other stored =
      elim (Option-cases (find_project_in_org organization_id project_id w)) [
        | inl absent ↦ ground arith
        | inr (q, found) ↦
            let (holds, row) = db.find_first_sound projects_model _ w.projects q found in
            absurd
              (ground (arith, eq_iff q.id project_id, eq_iff q.organization_id organization_id))
      ]

  -- The table of tasks after an update: as before, or with the new fields in one row, for a task
  -- that met the guards.
  pub update_task_tasks :
      (k : String)
      → (db.find_id tasks_model k after.tasks ≡ db.find_id tasks_model k w.tasks)
        ⊎ ((t : Task) × (ids : Option (List String)) × Guards t
            × (db.find_id tasks_model k after.tasks ≡ (
                if task_id == k
                then map_option
                    (with_fields (to_fields rt input ids))
                    (db.find_id tasks_model k w.tasks)
                else db.find_id tasks_model k w.tasks)))
  unfolding update_task
  update_task_tasks k =
      elim (Result-cases (check_update organization_id project_id task_id input w).0) [
        | inr (e, refused) ↦ inl (ground (arith, check_update_reads))
        | inl ((t, ids, members), passed) ↦
            let assignees =
              resolved_assignees (requested_assignees input.assignee_user_ids input.assignee_id)
                ids in
            elim (update_row_tasks new_ids project_id task_id (to_fields rt input assignees) t w
              k) [
                | inl same ↦ inl (ground (arith, check_update_reads))
                | inr changed ↦ inr (
                  t,
                  assignees,
                  check_update-Guards t ids members passed,
                  ground (arith, check_update_reads),
                )
              ]
      ]

  -- Whatever is asked of whichever task, after an update every task has its old status, or one
  -- that VALID_STATUS_TRANSITIONS allows from it.
  pub status_after_update :
      (k : String) (t u : Task)
      → db.find_id tasks_model k w.tasks ≡ some t
      → db.find_id tasks_model k after.tasks ≡ some u
      → is_valid_transition t.status (some u.status) ≡ true
  status_after_update k t u before then_ = elim (update_task_tasks k) [
    | inl same ↦ ground (arith, kept_status t, same)
    | inr (v, ids, (found, in_org, allowed), row) ↦
        ground
          (arith, row, eq_iff task_id k, kept_status t, found_row v found, new_status v ids allowed)
  ]

  -- Whatever update is asked for in an organization, the tasks of every project of another
  -- organization stay as they are.
  pub other_tasks_after_update :
      (k : String) (t : Task) (p : Project)
      → db.find_id tasks_model k w.tasks ≡ some t
      → db.find_id projects_model t.project_id w.projects ≡ some p
      → p.organization_id ≢ organization_id
      → db.find_id tasks_model k after.tasks ≡ some t
  other_tasks_after_update k t p stored of_project other = elim (update_task_tasks k) [
    | inl same ↦ ground (arith, same)
    | inr (v, ids, (found, in_org, allowed), row) ↦
        ground (arith, row, eq_iff task_id k, found_row v found, not_theirs p other, in_org)
  ]
