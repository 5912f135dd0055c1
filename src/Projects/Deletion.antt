-- ===== src/Projects/Deletion.antt =====
-- project.service.ts: what a deletion takes with it, and what it leaves.
use multi_tenant_project_man.Base.{
  String, none, some, ◌≡◌, ◌≢◌, ◌==◌, eq_iff, arith, not, Option-cases, inl, inr, if◌then◌else◌,
}
use multi_tenant_project_man.Base.Monad.{ok}
use multi_tenant_project_man.Prisma.{Prisma, keep_if}
use multi_tenant_project_man.Prisma.Where.{delete_where, find_id-delete_where, Write-cases}
use multi_tenant_project_man.Schema.Work.{
  Project, Task, Comment, projects_model, tasks_model, comments_model,
}
use multi_tenant_project_man.World.{World}
use multi_tenant_project_man.Projects.Repository.{
  find_by_id, delete_row, cascade_project, cascade_tasks, is_task_of,
}
use multi_tenant_project_man.Projects.Service.{delete_project}

module _ {db : Prisma} (organization_id project_id : String) (w : World db) where
  -- The task of a comment, before the deletion, is one of the project.
  belongs :
      (task_id : String) (t : Task)
      → db.find_id tasks_model task_id w.tasks ≡ some t
      → is_task_of project_id w task_id ≡ (t.project_id == project_id)
  unfolding is_task_of
  belongs task_id t stored = ground arith

  abbrev after : World db
  after = (delete_row organization_id project_id w).1

  deleted_row :
      (delete_row organization_id project_id w).0 ≡ ok tt
      → ((k : String)
          → db.find_id projects_model k after.projects
            ≡ (if k == project_id then none else db.find_id projects_model k w.projects))
        × ((k : String)
            → db.find_id tasks_model k after.tasks
              ≡ keep_if (λ t. not (t.project_id == project_id)) (db.find_id tasks_model k w.tasks))
        × ((k : String)
            → db.find_id comments_model k after.comments
              ≡ keep_if
                  (λ c. not (is_task_of project_id w c.task_id))
                  (db.find_id comments_model k w.comments))
  unfolding delete_row cascade_project cascade_tasks
  deleted_row succeeded =
      elim (Write-cases (
        delete_where db projects_model project_id (λ q. q.organization_id == organization_id)
          w.projects)) [
            | inl (t, e) ↦ (
              λ k.
                  ground
                    (arith, find_id-delete_where db projects_model project_id _ w.projects t k e),
              λ k. ground (
                arith,
                db.find_id-delete_many tasks_model (λ u. u.project_id == project_id) w.tasks k,
              ),
              λ k. ground (
                arith,
                db.find_id-delete_many comments_model (λ c. is_task_of project_id w c.task_id)
                    w.comments k,
              ),
            )
            | inr (inl absent) ↦ absurd (ground arith)
            | inr (inr taken) ↦ absurd (ground arith)
          ]

  same_tables :
      (v : World db)
      → delete_project organization_id project_id w ≡ (ok tt, v)
      → ((delete_row organization_id project_id w).0 ≡ ok tt)
        × (v.projects ≡ after.projects)
        × (v.tasks ≡ after.tasks)
        × (v.comments ≡ after.comments)
  unfolding delete_project
  same_tables v succeeded = elim (Option-cases (find_by_id organization_id project_id w)) [
    | inl absent ↦ absurd (ground arith)
    | inr (p, found) ↦ (ground arith, ground arith, ground arith, ground arith)
  ]

  -- After a deletion that succeeds, the organization has no such project, and neither a task
  -- of the project nor a comment on one of its tasks is left; every other project, every task
  -- of another project and every comment on such a task is as it was.
  pub delete_project_exact :
      (v : World db)
      → delete_project organization_id project_id w ≡ (ok tt, v)
      → (find_by_id organization_id project_id v ≡ none)
        × ((k : String) (p : Project)
            → p.id ≢ project_id
            → db.find_id projects_model k w.projects ≡ some p
            → db.find_id projects_model k v.projects ≡ some p)
        × ((k : String) (t : Task)
            → db.find_id tasks_model k w.tasks ≡ some t
            → db.find_id tasks_model k v.tasks
              ≡ (if t.project_id == project_id then none else some t))
        × ((k : String) (c : Comment) (t : Task)
            → db.find_id comments_model k w.comments ≡ some c
            → db.find_id tasks_model c.task_id w.tasks ≡ some t
            → db.find_id comments_model k v.comments
              ≡ (if t.project_id == project_id then none else some c))
  unfolding find_by_id
  delete_project_exact v succeeded =
      let (row, ps, ts, cs) = same_tables v succeeded in
      let (projects, tasks, comments) = deleted_row row in
      (
        elim (Option-cases (find_by_id organization_id project_id v)) [
          | inl absent ↦ absent
          | inr (p, found) ↦
              let (holds, stored) = db.find_first_sound projects_model _ v.projects p found in
              absurd (ground (arith, projects p.id, eq_iff p.id project_id))
        ],
        λ k p other stored. ground (
          arith,
          projects k,
          db.id-find_id projects_model k w.projects p stored,
          eq_iff k project_id,
        ),
        λ k t stored. ground (arith, tasks k),
        λ k c t stored on. ground (arith, comments k, belongs c.task_id t on),
      )
