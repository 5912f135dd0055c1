-- ===== src/Organizations/Cascade.antt =====
-- organization.repository.ts, `update` and `delete`, with what the foreign keys of
-- prisma/schema.prisma do on a deletion. A row of a user or of another organization that refers to
-- what is gone forgets it.
use multi_tenant_project_man.Base.{String, Bool, none, ◌==◌, ◌&&◌, is_some, is_value, or_default}
use multi_tenant_project_man.Base.Monad.{Action}
use multi_tenant_project_man.Prisma.{Prisma, keep_if}
use multi_tenant_project_man.Prisma.Where.{delete_where}
use multi_tenant_project_man.Schema.{
  Organization, organizations_model, members_model, invitations_model,
}
use multi_tenant_project_man.Schema.Work.{
  Task, projects_model, tasks_model, teams_model, team_members_model, notifications_model,
  meetings_model, attendees_model,
}
use multi_tenant_project_man.World.{World, write}
use multi_tenant_project_man.Projects.Repository.{cascade_tasks}

abbrev pub without_team : Task → Task
without_team t = record t { team_id = none }

module _ {db : Prisma} where
  -- Whether a project, a task, a team or a meeting is one of the organization.
  unfoldable pub owns_project : String → World db → String → Bool
  owns_project organization_id w project_id = is_some (
      keep_if (λ p. p.organization_id == organization_id)
        (db.find_id projects_model project_id w.projects))

  unfoldable pub owns_task : String → World db → String → Bool
  unfolding owns_project
  owns_task organization_id w task_id = is_some (
      keep_if (λ t. owns_project organization_id w t.project_id)
        (db.find_id tasks_model task_id w.tasks))

  unfoldable pub owns_team : String → World db → String → Bool
  owns_team organization_id w team_id =
      is_some (
        keep_if (λ t. t.organization_id == organization_id)
          (db.find_id teams_model team_id w.teams))

  unfoldable pub owns_meeting : String → World db → String → Bool
  owns_meeting organization_id w meeting_id = is_some (
      keep_if (λ m. m.organization_id == organization_id)
        (db.find_id meetings_model meeting_id w.meetings))

  unfoldable pub is_of_team : String → World db → Task → Bool
  unfolding owns_team
  is_of_team organization_id w t =
      is_some t.team_id && owns_team organization_id w (or_default t.team_id "")

  -- What the database deletes and clears with an organization.
  unfoldable pub cascade_organization : String → World db → World db
  unfolding cascade_tasks owns_task owns_project owns_team owns_meeting is_of_team
  cascade_organization organization_id w =
      let v = cascade_tasks (owns_task organization_id w) w in
      record v {
        members =
            db.delete_many members_model (λ m. m.organization_id == organization_id) v.members;
        invitations =
            db.delete_many invitations_model (λ i. i.organization_id == organization_id)
              v.invitations;
        projects =
            db.delete_many projects_model (λ p. p.organization_id == organization_id) v.projects;
        tasks =
            db.update_many tasks_model (is_of_team organization_id w) without_team (
              db.delete_many tasks_model (λ t. owns_project organization_id w t.project_id)
                v.tasks);
        teams = db.delete_many teams_model (λ t. t.organization_id == organization_id) v.teams;
        team_members =
            db.delete_many team_members_model (λ m. owns_team organization_id w m.team_id)
              v.team_members;
        notifications =
            db.delete_many notifications_model (λ n. is_value n.organization_id organization_id)
              v.notifications;
        attendees =
            db.delete_many attendees_model (λ a. owns_meeting organization_id w a.meeting_id)
              v.attendees;
        meetings =
            db.update_many meetings_model
              (λ m.
                is_some m.project_id && owns_project organization_id w (or_default m.project_id ""))
              (λ m. record m { project_id = none })
              (db.delete_many meetings_model (λ m. m.organization_id == organization_id)
                v.meetings);
      }

  unfoldable pub delete_organization_row : String → Action (World db) (Unit {0})
  unfolding cascade_organization
  delete_organization_row id w =
      write (delete_where db organizations_model id (λ o. o.id == id) w.organizations)
        (λ t v. cascade_organization id (record v { organizations = t })) tt w

  -- `update`, of the organization that was found
  unfoldable pub update_organization_row :
      String → (Organization → Organization) → Organization → Action (World db) Organization
  update_organization_row id change o w =
      write (db.update organizations_model id change w.organizations)
        (λ t v. record v { organizations = t }) (change o) w
