-- ===== src/Audit/Lists.antt =====
-- activity.service.ts and activity.repository.ts: the lists of an organization's activities, the
-- newest first.
use multi_tenant_project_man.Base.{
  ℕ, String, Bool, true, Option, none, some, List, [], ◌∷◌, ◌++◌, ◌==◌, ◌&&◌, length, present,
  or_default, if◌then◌else◌,
}
use multi_tenant_project_man.Base.Lists.{filter, head, take, drop}
use multi_tenant_project_man.Pagination.Pages.{PaginatedResponse, paginate}
use multi_tenant_project_man.Audit.{ActivityLog}

pub record FindActivityFilter : Type 0 where
  pub entity_type : Option String
  pub entity_id : Option String
  pub action : Option String
  pub skip : Option ℕ
  pub take : Option ℕ

-- `...(value ? { field: value } : {})`
abbrev is_asked : Option String → String → Bool
is_asked value field = if present value then or_default value "" == field else true

unfoldable pub newest_first : List ActivityLog → List ActivityLog
newest_first [] = []
newest_first (l ∷ logs) = newest_first logs ++ l ∷ []

-- `where` of `findByOrganization`, of the entries of the organization
unfoldable pub found_activities : FindActivityFilter → List ActivityLog → List ActivityLog
found_activities f logs =
    filter
      (λ l.
        is_asked f.entity_type l.entity_type
        && (is_asked f.entity_id l.entity_id && is_asked f.action l.action))
      logs

abbrev limited : Option ℕ → List ActivityLog → List ActivityLog
limited none logs = logs
limited (some n) logs = take n logs

-- `findByOrganization`: the rows and their number, with `skip` and `take` where they are given
unfoldable pub find_activities : FindActivityFilter → List ActivityLog → List ActivityLog × ℕ
unfolding found_activities newest_first
find_activities f logs = (
  limited f.take (drop (or_default f.skip 0) (newest_first (found_activities f logs))),
  length (found_activities f logs),
)

-- `findById`
unfoldable pub find_activity : String → List ActivityLog → Option ActivityLog
find_activity id logs = head (filter (λ l. l.id == id) logs)

unfoldable pub get_activities :
    (entity_type action : Option String)
    → (page limit : Option ℕ) → List ActivityLog
    → PaginatedResponse ActivityLog
unfolding found_activities newest_first paginate
get_activities entity_type action page limit logs =
    paginate newest_first
      (found_activities
        (record {
          entity_type = entity_type;
          entity_id = none;
          action = action;
          skip = none;
          take = none;
        })
        logs)
      page limit

unfoldable pub get_entity_activities :
    (entity_type entity_id : String)
    → (action : Option String) → (page limit : Option ℕ) → List ActivityLog
    → PaginatedResponse ActivityLog
unfolding found_activities newest_first paginate
get_entity_activities entity_type entity_id action page limit logs =
    paginate newest_first
      (found_activities
        (record {
          entity_type = some entity_type;
          entity_id = some entity_id;
          action = action;
          skip = none;
          take = none;
        })
        logs)
      page limit

-- `getOrganizationActivities`
unfoldable pub get_organization_activities :
    FindActivityFilter → List ActivityLog → List ActivityLog × ℕ
unfolding find_activities
get_organization_activities f logs = find_activities f logs
