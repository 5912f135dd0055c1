-- ===== src/Jobs/Cleanup.antt =====
-- jobs/services/cleanup.service.ts.
use multi_tenant_project_man.Base.{
  ℕ, zero, suc, Bool, Option, none, some, List, ◌&&◌, ◌||◌, ◌+◌, ◌*◌, ◌-◌, ltb, nat_eq, length, map,
  is_some, or_default, if◌then◌else◌,
}
use multi_tenant_project_man.Base.Error.{out_of_fuel}
use multi_tenant_project_man.Base.Lists.{contains, take}
use multi_tenant_project_man.Base.Monad.{Action, ok, pure, raise, ◌>>=◌}
use multi_tenant_project_man.Prisma.{Model, Prisma}
use multi_tenant_project_man.Schema.{RefreshSession, sessions_model}
use multi_tenant_project_man.Schema.Work.{StoredNotification, notifications_model}
use multi_tenant_project_man.World.{World}

-- CleanupSessionsResult, CleanupNotificationsResult
pub record CleanupResult : Type 0 where
  pub deleted_count : ℕ
  pub batches : ℕ

module _ {Row : Type 0} (db : Prisma) (m : Model Row) (where_clause : Row → Bool)
    (batch_size : ℕ) where
  abbrev pub fetched : db.Table m → List Row
  fetched t = take batch_size (db.find_many m where_clause t)

  -- `{ id: { in: idsToDelete } }`
  abbrev pub in_batch : db.Table m → Row → Bool
  in_batch t r = contains (map m.id (fetched t)) (m.id r)

  -- `deleteMany`, and the number of rows that it deletes
  abbrev pub remaining : db.Table m → db.Table m
  remaining t = db.delete_many m (in_batch t) t

  abbrev pub deleted : db.Table m → ℕ
  deleted t = length (db.find_many m (in_batch t) t)

  -- `while (fetchedCount === batchSize)`, at most so many rounds, after what was deleted before
  unfoldable pub delete_batches :
      (fuel : ℕ) → CleanupResult → db.Table m → Option (CleanupResult × db.Table m)
  delete_batches zero done t = none
  delete_batches (suc fuel) done t =
      let more : CleanupResult = record {
        deleted_count = done.deleted_count + deleted t;
        batches = suc done.batches;
      } in
      let rest = delete_batches fuel more (remaining t) in
      if nat_eq (length (fetched t)) 0
      then some (done, t)
      else if nat_eq (length (fetched t)) batch_size
      then rest
      else some (more, remaining t)

  -- The rounds that are enough: one for each row, and one more.
  abbrev pub rounds : db.Table m → ℕ
  rounds t = suc (length (db.find_many m where_clause t))

abbrev pub nothing_deleted : CleanupResult
nothing_deleted = record { deleted_count = 0; batches = 0 }

-- `OR: [{ expiresAt: { lt: now } }, { revokedAt: { not: null } }]`
unfoldable pub is_over : ℕ → RefreshSession → Bool
is_over now s = ltb s.expires_at now || is_some s.revoked_at

-- `isRead: true, createdAt: { lt: cutoff }`; the column `createdAt` is given beside the row.
unfoldable pub is_stale : (StoredNotification → ℕ) → (cutoff : ℕ) → StoredNotification → Bool
is_stale created_at cutoff n = n.is_read && ltb (created_at n) cutoff

-- CleanupJobData
pub data CleanupType : Type 0 where
  all expired_sessions stale_notifications temp_data : CleanupType

pub record CleanupJobData : Type 0 where
  pub type : CleanupType
  pub older_than_days : Option ℕ
  pub batch_size : Option ℕ

pub record CleanupResultSummary : Type 0 where
  pub sessions : Option CleanupResult
  pub notifications : Option CleanupResult

module _ {db : Prisma} where
  -- What the loop ends with, and the table that it leaves.
  abbrev ended :
      {T : Type 0}
      → (T → World db → World db)
      → Option (CleanupResult × T)
      → Action (World db) CleanupResult
  ended set none w = raise out_of_fuel w
  ended set (some (result, t)) w = (ok result, set t w)

  unfoldable pub cleanup_expired_and_revoked_sessions :
      (now batch_size : ℕ) → Action (World db) CleanupResult
  unfolding delete_batches is_over
  cleanup_expired_and_revoked_sessions now batch_size w =
      ended (λ t v. record v { sessions = t })
        (delete_batches db sessions_model (is_over now) batch_size
          (rounds db sessions_model (is_over now) batch_size w.sessions) nothing_deleted w.sessions)
        w

  unfoldable pub cleanup_stale_notifications :
      (StoredNotification → ℕ)
      → (now older_than_days batch_size : ℕ) → Action (World db) CleanupResult
  unfolding delete_batches is_stale
  cleanup_stale_notifications created_at now older_than_days batch_size w =
      let cutoff = now - older_than_days * 86400000 in
      ended (λ t v. record v { notifications = t })
        (delete_batches db notifications_model (is_stale created_at cutoff) batch_size
          (rounds db notifications_model (is_stale created_at cutoff) batch_size w.notifications)
          nothing_deleted w.notifications)
        w

  abbrev both :
      (StoredNotification → ℕ)
      → (now older_than_days batch_size : ℕ) → Action (World db) CleanupResultSummary
  both created_at now older_than_days batch_size = do
    sessions ← cleanup_expired_and_revoked_sessions now batch_size
    notifications ← cleanup_stale_notifications created_at now older_than_days batch_size
    pure (record { sessions = some sessions; notifications = some notifications })

  -- `executeJob`; where both are done, they are done at the same time, on tables of their own.
  unfoldable pub execute_job :
      (StoredNotification → ℕ) → (now : ℕ) → CleanupJobData → Action (World db) CleanupResultSummary
  unfolding cleanup_expired_and_revoked_sessions cleanup_stale_notifications
  execute_job created_at now job =
      let batch_size = or_default job.batch_size 500 in
      let older_than_days = or_default job.older_than_days 30 in
      elim job.type [
        | expired_sessions ↦ (do
          sessions ← cleanup_expired_and_revoked_sessions now batch_size
          pure (record { sessions = some sessions; notifications = none }))
        | stale_notifications ↦ (do
          notifications ← cleanup_stale_notifications created_at now older_than_days batch_size
          pure (record { sessions = none; notifications = some notifications }))
        | all ↦ both created_at now older_than_days batch_size
        | temp_data ↦ both created_at now older_than_days batch_size
      ]
