-- ===== src/Projects/Service.antt =====
-- project.service.ts.
use multi_tenant_project_man.Base.{
  ℕ, zero, suc, String, Bool, false, Option, none, some, List, [], ◌∷◌, ◌==◌, ◌&&◌, not, length,
  is_some, present, or_default, map_option, if◌then◌else◌,
}
use multi_tenant_project_man.Base.Error.{conflict, not_found, out_of_fuel}
use multi_tenant_project_man.Base.Monad.{
  Action, pure, raise, ◌>>=◌, ◌>>◌, gets, require, throw_if, throw,
}
use multi_tenant_project_man.CacheKeys
use multi_tenant_project_man.Prisma.{Prisma}
use multi_tenant_project_man.Schema.Work.{Project, ProjectStatus, active, projects_model}
use multi_tenant_project_man.World.{
  Runtime, World, call, cache_del, cache_del_pattern, log_activity, project_entity, created,
  updated, deleted, ActivityAction,
}
use multi_tenant_project_man.Projects.Keys.{extract_key_from_name, candidate_key}
use multi_tenant_project_man.Projects.Repository.{
  find_by_org_and_key, find_by_id, create_row, update_row, delete_row,
}

pub record CreateProjectInput : Type 0 where
  pub name : String
  pub key : Option String
  pub description : Option String
  pub status : Option ProjectStatus

-- A field that may be left out is an option; one that may also be null is an option of an option.
pub record UpdateProjectInput : Type 0 where
  pub name : Option String
  pub key : Option String
  pub description : Option (Option String)
  pub status : Option ProjectStatus

-- `value ? f(value) : old`
abbrev pub if_present : Option String → (String → String) → String → String
if_present value f old = if present value then f (or_default value "") else old

-- `value !== undefined ? (value ? value.trim() : null) : old`
unfoldable pub new_description : Runtime → Option (Option String) → Option String → Option String
new_description rt none old = old
new_description rt (some value) old =
    if present value then some (rt.trim (or_default value "")) else none

-- `if (keyConflict && keyConflict.id !== projectId)`
unfoldable pub is_conflict : String → Option Project → Bool
is_conflict project_id none = false
is_conflict project_id (some p) = not (p.id == project_id)

unfoldable pub with_input : Runtime → UpdateProjectInput → Project → Project
unfolding new_description
with_input rt input p = record p {
  name = if_present input.name rt.trim p.name;
  key = if_present input.key (λ k. k) p.key;
  description = new_description rt input.description p.description;
  status = or_default input.status p.status;
}

module _ {db : Prisma} where
  -- The loop of `generateUniqueKey`, at most so many rounds.
  unfoldable pub unused_key :
      Runtime
      → (fuel : ℕ) → (organization_id base_key candidate : String) → (counter : ℕ) → World db
      → Option String
  unfolding find_by_org_and_key
  unused_key rt zero organization_id base_key candidate counter w = none
  unused_key rt (suc fuel) organization_id base_key candidate counter w =
      let rest =
        unused_key rt fuel organization_id base_key (candidate_key rt base_key (suc counter))
          (suc counter) w in
      if is_some (find_by_org_and_key organization_id candidate w) then rest else some candidate

  abbrev pub projects_of : String → World db → List Project
  projects_of organization_id w =
      db.find_many projects_model (λ p. p.organization_id == organization_id) w.projects

  -- The rounds that are enough: one for each project of the organization, and two.
  abbrev pub key_rounds : String → World db → ℕ
  key_rounds organization_id w = suc (suc (length (projects_of organization_id w)))

  abbrev pub or_out_of_fuel : {A : Type 0} → Option A → Action (World db) A
  or_out_of_fuel none = raise out_of_fuel
  or_out_of_fuel (some a) = pure a

  unfoldable pub generate_unique_key :
      Runtime
      → (organization_id name : String) → (custom_key : Option String) → Action (World db) String
  unfolding find_by_org_and_key unused_key
  generate_unique_key rt organization_id name custom_key w =
      if present custom_key
      then (if is_some (find_by_org_and_key organization_id (or_default custom_key "") w)
          then throw (conflict "PROJECT_KEY_ALREADY_EXISTS") w
          else pure (or_default custom_key "") w)
      else or_out_of_fuel
          (unused_key rt (key_rounds organization_id w) organization_id
            (extract_key_from_name rt name) (extract_key_from_name rt name) 1 w)
          w

  -- What a project's change is told to: the caches, if the project was there, and the log.
  abbrev pub log_project : String → String → String → ActivityAction → Action (World db) (Unit {0})
  log_project organization_id user_id project_id action = call (
      log_activity (record {
        organization_id = organization_id;
        user_id = user_id;
        entity_type = project_entity;
        entity_id = project_id;
        action = action;
      }))

  -- `createProject`; the database chooses the id.
  unfoldable pub create_project :
      Runtime
      → (new_id organization_id user_id : String) → CreateProjectInput
      → Action (World db) Project
  create_project rt new_id organization_id user_id input = do
    key ← generate_unique_key rt organization_id input.name input.key
    project ← create_row (record {
      id = new_id;
      organization_id = organization_id;
      name = rt.trim input.name;
      key = key;
      description = map_option rt.trim input.description;
      status = or_default input.status active;
      created_by_id = user_id;
    })
    call (cache_del_pattern (CacheKeys.projects_list_pattern organization_id))
    log_project organization_id user_id project.id created
    pure project

  abbrev pub forget_project : String → String → Action (World db) (Unit {0})
  forget_project organization_id project_id = do
    call (cache_del (CacheKeys.project organization_id project_id ∷ []))
    call (cache_del_pattern (CacheKeys.projects_list_pattern organization_id))

  -- `updateProject`
  unfoldable pub update_project :
      Runtime
      → (organization_id project_id : String) → UpdateProjectInput
      → Action (World db) Project
  unfolding find_by_id find_by_org_and_key is_conflict with_input
  update_project rt organization_id project_id input = do
    found ← gets (find_by_id organization_id project_id)
    existing ← require found (not_found "PROJECT_NOT_FOUND")
    holder ← gets (find_by_org_and_key organization_id (or_default input.key ""))
    throw_if
        (present input.key
          && (not (or_default input.key "" == existing.key) && is_conflict project_id holder))
        (conflict "PROJECT_KEY_ALREADY_EXISTS")
    changed ← update_row organization_id project_id (with_input rt input) existing
    forget_project organization_id project_id
    log_project organization_id changed.created_by_id project_id updated
    pure changed

  -- `deleteProject`
  unfoldable pub delete_project :
      (organization_id project_id : String) → Action (World db) (Unit {0})
  unfolding find_by_id
  delete_project organization_id project_id = do
    found ← gets (find_by_id organization_id project_id)
    existing ← require found (not_found "PROJECT_NOT_FOUND")
    delete_row organization_id project_id
    forget_project organization_id project_id
    log_project organization_id existing.created_by_id project_id deleted
