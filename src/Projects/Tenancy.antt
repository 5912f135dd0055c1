-- ===== src/Projects/Tenancy.antt =====
-- project.service.ts: what becomes of the projects, and of the tasks that belong to them.
use multi_tenant_project_man.Base.{
  String, Option, some, ◌≡◌, ◌≢◌, refl, ◌==◌, eq_iff, arith, Option-cases, inl, inr,
}
use multi_tenant_project_man.Prisma.{Prisma}
use multi_tenant_project_man.Prisma.Where.{update_where_keeps}
use multi_tenant_project_man.Schema.Work.{Project, projects_model}
use multi_tenant_project_man.World.{Runtime, World}
use multi_tenant_project_man.Projects.Repository.{find_by_id, update_row}
use multi_tenant_project_man.Projects.Service.{UpdateProjectInput, with_input, update_project}

module _ {db : Prisma} (w : World db) where
  abbrev project_at : String → World db → Option Project
  project_at k v = db.find_id projects_model k v.projects

  update_row_keeps :
      (organization_id project_id : String) (f : Project → Project) (a : Project) (v : World db)
      (k : String) (p : Project)
      → ((q : Project) → (f q).id ≡ q.id)
      → project_at k v ≡ some p
      → p.organization_id ≢ organization_id
      → project_at k (update_row organization_id project_id f a v).1 ≡ some p
  unfolding update_row
  update_row_keeps organization_id project_id f a v k p same stored other = ground (
    arith,
    update_where_keeps db projects_model project_id (λ q. q.organization_id == organization_id) f
        v.projects k p same stored,
    eq_iff p.organization_id organization_id,
  )

  -- Whatever is asked to be changed in an organization's project, the projects of every other
  -- organization stay as they are.
  pub update_project_keeps :
      (rt : Runtime) (organization_id project_id : String) (input : UpdateProjectInput) (k : String)
      (p : Project)
      → project_at k w ≡ some p
      → p.organization_id ≢ organization_id
      → project_at k (update_project rt organization_id project_id input w).1 ≡ some p
  unfolding update_project with_input
  update_project_keeps rt organization_id project_id input k p stored other =
      elim (Option-cases (find_by_id organization_id project_id w)) [
        | inl absent ↦ ground arith
        | inr (q, found) ↦ ground (
          arith,
          update_row_keeps organization_id project_id (with_input rt input) q w k p (λ r. refl)
              stored other,
        )
      ]
