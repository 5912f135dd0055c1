-- ===== src/CacheKeys.antt =====
-- utils/cache.ts: the keys of cached values.
use Prim.Native.String
use multi_tenant_project_man.Base.{String}

abbrev pub organization : String → String
organization org_id = String.◌++◌ "org:" org_id

abbrev pub user_organizations : String → String
user_organizations user_id = String.◌++◌ "user:" (String.◌++◌ user_id ":orgs")

abbrev pub project : (org_id project_id : String) → String
project org_id project_id =
    String.◌++◌ "org:" (String.◌++◌ org_id (String.◌++◌ ":project:" project_id))

abbrev pub projects_list_pattern : String → String
projects_list_pattern org_id = String.◌++◌ "org:" (String.◌++◌ org_id ":projects:*")

-- with the query as JSON
abbrev pub projects_list : (org_id query : String) → String
projects_list org_id query =
    String.◌++◌ "org:" (String.◌++◌ org_id (String.◌++◌ ":projects:" query))
