-- ===== src/Tests/Night.antt =====
-- The cleanup at work.
use multi_tenant_project_man.Base.{◌≡◌, arith}
use multi_tenant_project_man.Base.Monad.{ok}
use multi_tenant_project_man.Prisma.Rows.Client.{rows}
use multi_tenant_project_man.World.{World}
use multi_tenant_project_man.Jobs.Cleanup.{CleanupResult, cleanup_expired_and_revoked_sessions}
use multi_tenant_project_man.Jobs.Cleaned.{cleanup_sessions_total}
use multi_tenant_project_man.Tests.Data.{team}

cleanup_sessions_total_example :
    (result : CleanupResult) × (v : World rows) × (cleanup_expired_and_revoked_sessions {db = rows}
        9500 1 team
      ≡ (ok result, v))
cleanup_sessions_total_example =
    let (result, v, ends, kept, left) =
      cleanup_sessions_total {db = rows} team 9500 1 (omega arith) in
    (result, v, ends)
