-- ===== src/Tasks/Filter.antt =====
-- task.repository.ts: which tasks `findPaginatedTasks` lists. The users of a task's assignees are
-- given beside the task.
use multi_tenant_project_man.Base.{
  String, Bool, true, false, Option, none, some, List, ◌==◌, ◌&&◌, ◌||◌, not, ◌≡◌, ◌≢◌, arith, any,
  present, or_default, is_value, eq_iff, if◌then◌else◌,
}
use multi_tenant_project_man.Schema.Work.{
  TaskStatus, TaskPriority, Task, same_status, same_priority,
}

pub record FindTasksFilter : Type 0 where
  pub status : Option TaskStatus
  pub priority : Option TaskPriority
  pub assignee_id : Option String
  pub team_id : Option String
  pub search : Option String

-- `contains` with `mode: 'insensitive'`, which the database computes.
module _ (contains : (part text : String) → Bool) where
  abbrev is_status : Option TaskStatus → Task → Bool
  is_status none t = true
  is_status (some s) t = same_status t.status s

  abbrev is_priority : Option TaskPriority → Task → Bool
  is_priority none t = true
  is_priority (some p) t = same_priority t.priority p

  abbrev assigned_to : String → List String → Task → Bool
  assigned_to user_id assignees t =
      is_value t.assignee_id user_id || any (λ id. id == user_id) assignees

  abbrev contained : String → Option String → Bool
  contained part none = false
  contained part (some text) = contains part text

  abbrev matches : String → Task → Bool
  matches search t = contains search t.title || contained search t.description

  -- The `OR` of the object `where`: of two spreads with that key, the later one is kept.
  unfoldable pub or_clause : FindTasksFilter → List String → Task → Bool
  or_clause f assignees t =
      if present f.search
      then matches (or_default f.search "") t
      else if present f.assignee_id
      then assigned_to (or_default f.assignee_id "") assignees t
      else true

  -- Whether a task of the project is in the list of `findPaginatedTasks`.
  unfoldable pub is_listed : String → FindTasksFilter → List String → Task → Bool
  unfolding same_status same_priority or_clause
  is_listed project_id f assignees t =
      t.project_id == project_id
      && (is_status f.status t
          && (is_priority f.priority t
              && ((not (present f.team_id) || is_value t.team_id (or_default f.team_id ""))
                  && or_clause f assignees t)))

  -- A task that is in the list of a project for an assignee, without a search, is a task of
  -- the project and is assigned to that user.
  pub assignee_listed :
      (project_id user_id : String) (f : FindTasksFilter) (assignees : List String) (t : Task)
      → f.assignee_id ≡ some user_id
      → user_id ≢ ""
      → present f.search ≡ false
      → is_listed project_id f assignees t ≡ true
      → (t.project_id ≡ project_id) × (assigned_to user_id assignees t ≡ true)
  unfolding is_listed or_clause
  assignee_listed project_id user_id f assignees t given full unsearched listed =
      ground (arith, eq_iff user_id "", eq_iff t.project_id project_id)
