-- ===== src/Caching.antt =====
-- utils/cache.ts: a value that is read from the cache, or fetched and put there. What Redis answers
-- is an argument: none also where it fails, since the service catches that.
use multi_tenant_project_man.Base.{ℕ, String, Option, none, some}
use multi_tenant_project_man.Base.Monad.{Action, pure, ◌>>=◌, ◌>>◌}
use multi_tenant_project_man.Prisma.{Prisma}
use multi_tenant_project_man.World.{World, call, cache_set}

-- CACHE_TTL, in seconds
abbrev pub organization_ttl : ℕ
organization_ttl = 300

abbrev pub user_orgs_ttl : ℕ
user_orgs_ttl = 120

abbrev pub project_ttl : ℕ
project_ttl = 300

abbrev pub projects_list_ttl : ℕ
projects_list_ttl = 120

unfoldable pub get_or_set :
    {db : Prisma} {A : Type 0}
    → (key : String) → (cached : Option A) → Action (World db) A
    → (ttl_seconds : ℕ) → Action (World db) A
get_or_set key (some value) fetcher ttl_seconds = pure value
get_or_set key none fetcher ttl_seconds = do
  result ← fetcher
  call (cache_set key ttl_seconds)
  pure result
