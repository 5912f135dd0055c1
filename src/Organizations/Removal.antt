-- ===== src/Organizations/Removal.antt =====
-- organization.service.ts: what goes with an organization that is deleted, and what stays.
use multi_tenant_project_man.Base.{
  String, true, none, some, ◌≡◌, ◌≢◌, ◌==◌, eq_iff, arith, not, refl, Option-cases, inl, inr,
  if◌then◌else◌,
}
use multi_tenant_project_man.Base.Monad.{ok}
use multi_tenant_project_man.Prisma.{Prisma, IsPlain, keep_if}
use multi_tenant_project_man.Prisma.Where.{delete_where, find_id-delete_where, Write-cases}
use multi_tenant_project_man.Schema.{OrganizationMember, organizations_model, members_model}
use multi_tenant_project_man.Schema.Work.{Project, Task, projects_model, tasks_model}
use multi_tenant_project_man.World.{World}
use multi_tenant_project_man.Projects.Repository.{cascade_tasks}
use multi_tenant_project_man.Organizations.Repository.{find_by_id}
use multi_tenant_project_man.Organizations.Cascade.{
  cascade_organization, delete_organization_row, owns_project, is_of_team, without_team,
}
use multi_tenant_project_man.Organizations.Service.{delete_organization}

without_team-IsPlain : IsPlain tasks_model without_team
without_team-IsPlain = record {
  id = λ t. refl;
  clash_left = λ t u. refl;
  clash_right = λ t u. refl;
}

module _ {db : Prisma} (organization_id : String) (w : World db) where
  abbrev gone : World db
  gone = (delete_organization_row organization_id w).1

  deleted_rows :
      (delete_organization_row organization_id w).0 ≡ ok tt
      → ((k : String)
          → db.find_id organizations_model k gone.organizations ≡ (
              if k == organization_id
              then none
              else db.find_id organizations_model k w.organizations))
        × ((k : String)
            → db.find_id members_model k gone.members
              ≡ keep_if
                  (λ m. not (m.organization_id == organization_id))
                  (db.find_id members_model k w.members))
        × ((k : String)
            → db.find_id projects_model k gone.projects
              ≡ keep_if
                  (λ p. not (p.organization_id == organization_id))
                  (db.find_id projects_model k w.projects))
        × ((k : String) (t : Task)
            → db.find_id tasks_model k w.tasks ≡ some t
            → owns_project organization_id w t.project_id ≡ true
            → db.find_id tasks_model k gone.tasks ≡ none)
  unfolding delete_organization_row cascade_organization cascade_tasks
  deleted_rows succeeded =
      elim (Write-cases (
        delete_where db organizations_model organization_id (λ o. o.id == organization_id)
          w.organizations)) [
            | inl (t, e) ↦ (
              λ k. ground (
                arith,
                find_id-delete_where db organizations_model organization_id _ w.organizations t k e,
              ),
              λ k. ground (
                arith,
                db.find_id-delete_many members_model (λ m. m.organization_id == organization_id)
                    w.members k,
              ),
              λ k. ground (
                arith,
                db.find_id-delete_many projects_model (λ p. p.organization_id == organization_id)
                    w.projects k,
              ),
              λ k u stored owned. ground (
                arith,
                db.find_id-update_many tasks_model (is_of_team organization_id w) without_team
                    (db.delete_many tasks_model (λ s. owns_project organization_id w s.project_id)
                      w.tasks)
                    k without_team-IsPlain,
                db.find_id-delete_many tasks_model
                    (λ s. owns_project organization_id w s.project_id) w.tasks k,
              ),
            )
            | inr (inl absent) ↦ absurd (ground arith)
            | inr (inr taken) ↦ absurd (ground arith)
          ]

  same_tables :
      (v : World db)
      → delete_organization organization_id w ≡ (ok tt, v)
      → ((delete_organization_row organization_id w).0 ≡ ok tt)
        × (v.organizations ≡ gone.organizations)
        × (v.members ≡ gone.members)
        × (v.projects ≡ gone.projects)
        × (v.tasks ≡ gone.tasks)
  unfolding delete_organization
  same_tables v succeeded = elim (Option-cases (find_by_id organization_id w)) [
    | inl absent ↦ absurd (ground arith)
    | inr (o, found) ↦ (ground arith, ground arith, ground arith, ground arith, ground arith)
  ]

  -- After a deletion that succeeds, the organization is gone, and with it its members, its
  -- projects and the tasks of these; every other organization and its members and projects are
  -- as they were.
  pub delete_organization_exact :
      (v : World db)
      → delete_organization organization_id w ≡ (ok tt, v)
      → (find_by_id organization_id v ≡ none)
        × ((k : String) (m : OrganizationMember)
            → db.find_id members_model k w.members ≡ some m
            → db.find_id members_model k v.members
              ≡ (if m.organization_id == organization_id then none else some m))
        × ((k : String) (p : Project)
            → db.find_id projects_model k w.projects ≡ some p
            → db.find_id projects_model k v.projects
              ≡ (if p.organization_id == organization_id then none else some p))
        × ((k : String) (t : Task) (p : Project)
            → db.find_id tasks_model k w.tasks ≡ some t
            → db.find_id projects_model t.project_id w.projects ≡ some p
            → p.organization_id ≡ organization_id
            → db.find_id tasks_model k v.tasks ≡ none)
        × ((k : String) → k ≢ organization_id → find_by_id k v ≡ find_by_id k w)
  unfolding find_by_id owns_project
  delete_organization_exact v succeeded =
      let (row, os, ms, ps, ts) = same_tables v succeeded in
      let (organizations, members, projects, tasks) = deleted_rows row in
      (
        ground (arith, organizations organization_id, eq_iff organization_id organization_id),
        λ k m stored. ground (arith, members k),
        λ k p stored. ground (arith, projects k),
        λ k t p stored on within.
            ground (arith, tasks k t stored, eq_iff p.organization_id organization_id),
        λ k other. ground (arith, organizations k, eq_iff k organization_id),
      )
