-- ===== src/Tests/Board.antt =====
-- The lists of tasks at work.
use multi_tenant_project_man.Base.{String, Bool, ◌≡◌, ◌==◌, ◌∷◌, [], refl, some, none, true}
use multi_tenant_project_man.Tasks.Filter.{FindTasksFilter, or_clause, is_listed}
use multi_tenant_project_man.Tests.Data.{task}

abbrev filter : FindTasksFilter
filter = record {
  status = none;
  priority = none;
  assignee_id = some "u1";
  team_id = none;
  search = none;
}

abbrev same : String → String → Bool
same part text = part == text

listed : is_listed same "p1" filter ("u1" ∷ []) task ≡ true
unfolding is_listed or_clause
listed = refl
