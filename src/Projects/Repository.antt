-- ===== src/Projects/Repository.antt =====
-- project.repository.ts, with what the foreign keys of prisma/schema.prisma do on a deletion.
use multi_tenant_project_man.Base.{
  String, Bool, false, Option, none, some, ◌==◌, ◌&&◌, is_some, is_value,
}
use multi_tenant_project_man.Base.Monad.{Action}
use multi_tenant_project_man.Prisma.{Prisma, keep_if}
use multi_tenant_project_man.Prisma.Where.{update_where, delete_where}
use multi_tenant_project_man.Schema.Work.{
  Project, projects_model, tasks_model, comments_model, attachments_model, assignees_model,
  meetings_model,
}
use multi_tenant_project_man.World.{World, write}

-- A meeting's task that is gone.
abbrev is_gone : (String → Bool) → Option String → Bool
is_gone gone none = false
is_gone gone (some id) = gone id

module _ {db : Prisma} where
  unfoldable pub find_by_org_and_key : String → String → World db → Option Project
  find_by_org_and_key organization_id key w =
      db.find_first projects_model (λ p. p.organization_id == organization_id && p.key == key)
        w.projects

  unfoldable pub find_by_id : String → String → World db → Option Project
  find_by_id organization_id project_id w =
      db.find_first projects_model (λ p. p.id == project_id && p.organization_id == organization_id)
        w.projects

  unfoldable pub create_row : Project → Action (World db) Project
  create_row p w =
      write (db.create projects_model p w.projects) (λ t v. record v { projects = t }) p w

  unfoldable pub update_row :
      (organization_id project_id : String)
      → (Project → Project)
      → Project
      → Action (World db) Project
  update_row organization_id project_id change p w =
      write
        (update_where db projects_model project_id (λ q. q.organization_id == organization_id)
          change w.projects)
        (λ t v. record v { projects = t }) (change p) w

  -- What the database deletes and clears with a task, by the foreign keys of schema.prisma: comments,
  -- attachments and assignees go with it, and a meeting forgets it.
  unfoldable pub cascade_tasks : (String → Bool) → World db → World db
  cascade_tasks gone w = record w {
    comments = db.delete_many comments_model (λ c. gone c.task_id) w.comments;
    attachments = db.delete_many attachments_model (λ a. gone a.task_id) w.attachments;
    assignees = db.delete_many assignees_model (λ a. gone a.task_id) w.assignees;
    meetings =
        db.update_many meetings_model (λ m. is_gone gone m.task_id)
          (λ m. record m { task_id = none }) w.meetings;
  }

  -- Whether a task is one of the project.
  unfoldable pub is_task_of : String → World db → String → Bool
  is_task_of project_id w task_id =
      is_some (keep_if (λ t. t.project_id == project_id) (db.find_id tasks_model task_id w.tasks))

  -- What it deletes and clears with a project: its tasks go with it, and a meeting forgets it.
  unfoldable pub cascade_project : String → World db → World db
  unfolding cascade_tasks is_task_of
  cascade_project project_id w =
      let v = cascade_tasks (is_task_of project_id w) w in
      record v {
        tasks = db.delete_many tasks_model (λ t. t.project_id == project_id) v.tasks;
        meetings =
            db.update_many meetings_model (λ m. is_value m.project_id project_id)
              (λ m. record m { project_id = none }) v.meetings;
      }

  unfoldable pub delete_row : (organization_id project_id : String) → Action (World db) (Unit {0})
  unfolding cascade_project
  delete_row organization_id project_id w =
      write
        (delete_where db projects_model project_id (λ q. q.organization_id == organization_id)
          w.projects)
        (λ t v. cascade_project project_id (record v { projects = t })) tt w
