-- ===== src/Tasks/Created.antt =====
-- task.service.ts: what holds of a task that was created.
use multi_tenant_project_man.Base.{
  String, Bool, true, false, Option, none, some, List, [], ◌∷◌, ◌≡◌, ◌==◌, ◌&&◌, ◌≢◌, Option-cases,
  eq_iff, arith, not, Bool-cases, inl, inr, present, is_some, or_default, ap, ◌∙◌, All, map_option,
  map,
}
use multi_tenant_project_man.Base.Double.{
  Double, at_most, plus, whole, at_most_refl, at_most_total, at_most_trans,
}
use multi_tenant_project_man.Base.Error.{bad_request}
use multi_tenant_project_man.Base.Lists.{contains, unique, head}
use multi_tenant_project_man.Base.Monad.{ok, bind_ok}
use multi_tenant_project_man.Prisma.{Prisma}
use multi_tenant_project_man.Prisma.Many.{IsStored-many}
use multi_tenant_project_man.Tasks.States.{same_status_refl}
use multi_tenant_project_man.Schema.{OrganizationMember}
use multi_tenant_project_man.Schema.Work.{Task, TaskStatus, tasks_model, same_status}
use multi_tenant_project_man.World.{Runtime, World}
use multi_tenant_project_man.Organizations.Repository.{find_member}
use multi_tenant_project_man.Validation.Sound.{validated}
use multi_tenant_project_man.Tasks.Repository.{
  find_project_in_org, is_team_in_org, get_max_position, highest, higher, create_task as create_row,
  insert_task, insert_assignees,
}
use multi_tenant_project_man.Tasks.Input.{CreateTaskInput, requested_assignees}
use multi_tenant_project_man.Tasks.Service.{
  create_task, check_create, validate_project_in_org, validate_assignees, validate_team,
}
use multi_tenant_project_man.Tasks.Effects.{validate_assignees_reads}

not_empty :
    (ts : List Task) (k : String) → contains (map (λ u. u.id) ts) k ≡ true → highest ts ≢ none
not_empty [] k within empty = absurd (ground arith)
not_empty (u ∷ ts) k within empty = cc

module _ {db : Prisma} (w : World db) where
  higher_above :
      (x : Double) (o : Option Double)
      → (at_most x (higher x o) ≡ true)
        × ((y : Double) → o ≡ some y → at_most y (higher x o) ≡ true)
  higher_above x none = (at_most_refl x, λ y same. absurd cc)
  higher_above x (some m) = elim (Bool-cases (at_most x m)) [
    | inl below ↦ (ground arith, λ y same. ground (arith, at_most_refl m))
    | inr above ↦
        (ground (arith, at_most_refl x), λ y same. ground (arith, at_most_total x m above))
  ]

  highest_above :
      (ts : List Task) (k : String) (t : Task)
      → All (λ u. db.find_id tasks_model u.id w.tasks ≡ some u) ts
      → contains (map (λ u. u.id) ts) k ≡ true
      → db.find_id tasks_model k w.tasks ≡ some t
      → at_most t.position (or_default (highest ts) (whole 0)) ≡ true
  highest_above [] k t all within stored = absurd (ground arith)
  highest_above (u ∷ ts) k t all within stored =
      let (here, there) = higher_above u.position (highest ts) in
      elim (Bool-cases (u.id == k)) [
        | inl same ↦ ground (arith, here, all.0, eq_iff u.id k)
        | inr other ↦
            let later = highest_above ts k t all.1 (ground arith) stored in
            elim (Option-cases (highest ts)) [
              | inl empty ↦ absurd (not_empty ts k (ground arith) empty)
              | inr (y, top) ↦
                  at_most_trans t.position y (higher u.position (highest ts)) (ground arith)
                    (there y top)
            ]
      ]

  position_below :
      (project_id : String) (status : TaskStatus) (k : String) (t : Task)
      → db.find_id tasks_model k w.tasks ≡ some t
      → t.project_id ≡ project_id
      → t.status ≡ status
      → at_most t.position (get_max_position project_id status w) ≡ true
  unfolding get_max_position
  position_below project_id status k t stored here same =
      let p : Task → Bool = λ u. u.project_id == project_id && same_status u.status status in
      highest_above (db.find_many tasks_model p w.tasks) k t
        (IsStored-many db tasks_model w.tasks (λ u. u.id) p)
        (db.find_many_complete tasks_model p w.tasks k t stored
          (ground (arith, eq_iff t.project_id project_id, same_status_refl t.status)))
        stored

  module _ (rt : Runtime) (new_id : String) (new_ids : String → String)
      (organization_id project_id user_id : String) (input : CreateTaskInput) where
    abbrev asked : Option (List String)
    asked = requested_assignees input.assignee_user_ids input.assignee_id

    -- The task that `createTask` stores, for the ids that were let through.
    abbrev new_task : List String → Task
    new_task ids = record {
      id = new_id;
      project_id = project_id;
      title = rt.trim input.title;
      description = map_option rt.trim input.description;
      status = input.status;
      priority = input.priority;
      assignee_id = head ids;
      team_id = input.team_id;
      created_by_id = user_id;
      due_date = input.due_date;
      position =
          or_default input.position
            (plus (get_max_position project_id input.status w) (whole 1000));
    }

    create_row_ok :
        (t u : Task) (ids : List String) (v : World db)
        → (create_row new_ids ids u v).0 ≡ ok t
        → t ≡ record u { assignee_id = head ids }
    unfolding create_row insert_task insert_assignees
    create_row_ok t u ids v passed = ground arith

    check_create_reads : (check_create organization_id project_id input w).1 ≡ w
    unfolding check_create validate_project_in_org validate_team
    check_create_reads = ground (arith, validate_assignees_reads organization_id asked w)

    check_create_ok :
        (ids : List String) (members : List OrganizationMember)
        → (check_create organization_id project_id input w).0 ≡ ok (ids, members)
        → (is_some (find_project_in_org organization_id project_id w) ≡ true)
          × ((validate_assignees organization_id asked w).0 ≡ ok (ids, members))
          × ((present input.team_id
                && not (is_team_in_org organization_id (or_default input.team_id "") w))
              ≡ false)
    unfolding check_create validate_project_in_org validate_team
    check_create_ok ids members passed =
        let same = validate_assignees_reads organization_id asked w in
        (
          ground arith,
          ground (arith, same),
          elim (Bool-cases (
              present input.team_id
              && not (is_team_in_org organization_id (or_default input.team_id "") w))) [
                | inl foreign ↦ absurd (ground (arith, same))
                | inr fine ↦ fine
              ],
        )

    created_row :
        (t : Task) (ids : List String) (members : List OrganizationMember)
        → (check_create organization_id project_id input w).0 ≡ ok (ids, members)
        → (create_task rt new_id new_ids organization_id project_id user_id input w).0 ≡ ok t
        → t ≡ new_task ids
    unfolding create_task
    created_row t ids members checked passed =
        let unassigned = record (new_task ids) { assignee_id = none } in
        ground (arith, check_create_reads, create_row_ok t unassigned ids w)

    -- When a task is created, the project is one of the organization, each user asked for is a
    -- member of it, a team that is given is one of its teams, the first user asked for is the
    -- primary assignee, and, where no position is asked for, the task gets the sum, in
    -- doubles, of 1000 and a position that no task of its project and status exceeds.
    pub create_task_checked :
        (t : Task)
        → (create_task rt new_id new_ids organization_id project_id user_id input w).0 ≡ ok t
        → (t ≡ new_task (unique (or_default asked [])))
          × (is_some (find_project_in_org organization_id project_id w) ≡ true)
          × ((z : String)
              → contains (or_default asked []) z ≡ true
              → is_some (find_member organization_id z w) ≡ true)
          × ((present input.team_id
                && not (is_team_in_org organization_id (or_default input.team_id "") w))
              ≡ false)
          × (input.position ≡ none
              → (highest_position : Double) × (t.position ≡ plus highest_position (whole 1000))
                × ((k : String) (u : Task)
                    → db.find_id tasks_model k w.tasks ≡ some u
                    → u.project_id ≡ project_id
                    → u.status ≡ input.status
                    → at_most u.position highest_position ≡ true))
    unfolding create_task
    create_task_checked t passed =
        let ((ids, members), checked, rest) =
          bind_ok {A = List String × List OrganizationMember} _ _ _ _ passed in
        let (project, valid, team) = check_create_ok ids members checked in
        let (once, all) =
          validated organization_id w (bad_request "INVALID_ASSIGNEE") asked ids members
            (unfold validate_assignees in valid) in
        let row = created_row t ids members checked passed in
        (
          row ∙ ap new_task once,
          project,
          all,
          team,
          λ unplaced. (
            get_max_position project_id input.status w,
            ground (arith, row),
            position_below project_id input.status,
          ),
        )
