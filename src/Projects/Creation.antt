-- ===== src/Projects/Creation.antt =====
-- project.service.ts: creating a project without a key of its own.
use multi_tenant_project_man.Base.{
  String, false, Option, none, some, ◌≡◌, refl, eq_iff, arith, present, map_option, or_default,
}
use multi_tenant_project_man.Base.Monad.{ok}
use multi_tenant_project_man.Prisma.{Prisma}
use multi_tenant_project_man.Schema.Work.{Project, active, projects_model}
use multi_tenant_project_man.World.{Runtime, World}
use multi_tenant_project_man.Projects.Keys.{extract_key_from_name}
use multi_tenant_project_man.Projects.Repository.{find_by_org_and_key, create_row}
use multi_tenant_project_man.Projects.Service.{
  CreateProjectInput, create_project, generate_unique_key, key_rounds,
}
use multi_tenant_project_man.Projects.Unused.{IsInjective, unused_key_total, unused_key_free}

abbrev new_project : Runtime → (id organization user key : String) → CreateProjectInput → Project
new_project r id organization user key given = record {
  id = id;
  organization_id = organization;
  name = r.trim given.name;
  key = key;
  description = map_option r.trim given.description;
  status = or_default given.status active;
  created_by_id = user;
}

module _ {db : Prisma} (w : World db) where
  abbrev project_at : String → World db → Option Project
  project_at k v = db.find_id projects_model k v.projects

  key_apart :
      (organization key : String)
      → find_by_org_and_key organization key w ≡ none
      → (k : String) (q : Project) → project_at k w ≡ some q
      → (r : Project) → r.organization_id ≡ organization
      → r.key ≡ key
      → (projects_model.clash r q ≡ false) × (projects_model.clash q r ≡ false)
  unfolding find_by_org_and_key
  key_apart organization key free k q found r same same' =
      let apart = db.find_first_complete projects_model _ w.projects k q free found in
      (
        ground (
          arith,
          apart,
          eq_iff r.organization_id q.organization_id,
          eq_iff q.organization_id organization,
          eq_iff r.key q.key,
          eq_iff q.key key,
        ),
        ground (
          arith,
          apart,
          eq_iff q.organization_id r.organization_id,
          eq_iff q.organization_id organization,
          eq_iff q.key r.key,
          eq_iff q.key key,
        ),
      )

  -- Creating a project without a key of its own succeeds whatever projects there are, for a
  -- new id: the project gets a key that no project of the organization had, and is stored.
  -- Different numbers are taken to have different texts.
  pub create_project_total :
      (rt : Runtime) (new_id organization_id user_id : String) (input : CreateProjectInput)
      → IsInjective rt.number_text
      → project_at new_id w ≡ none
      → present input.key ≡ false
      → (p : Project) × ((create_project rt new_id organization_id user_id input w).0 ≡ ok p)
        × (find_by_org_and_key organization_id p.key w ≡ none)
        × (project_at new_id (create_project rt new_id organization_id user_id input w).1 ≡ some p)
  unfolding create_project generate_unique_key create_row
  create_project_total rt new_id organization_id user_id input shown fresh unnamed =
      let base_key = extract_key_from_name rt input.name in
      let (key, searched) = unused_key_total rt base_key organization_id w base_key shown in
      let free =
        unused_key_free rt base_key organization_id w (key_rounds organization_id w) base_key 1 key
          searched in
      let p = new_project rt new_id organization_id user_id key input in
      let (t, stored) =
        db.create_total projects_model p w.projects fresh
          (λ k q found. key_apart organization_id key free k q found p refl refl) in
      (
        p,
        ground arith,
        free,
        ground (
          arith,
          db.find_id-create projects_model p w.projects t new_id stored,
          eq_iff new_id new_id,
        ),
      )
