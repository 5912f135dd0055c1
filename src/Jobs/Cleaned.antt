-- ===== src/Jobs/Cleaned.antt =====
-- cleanup.service.ts: that its loops end, and what they leave of the tables.
use multi_tenant_project_man.Base.{
  ℕ, zero, suc, String, Bool, false, some, [], ◌≡◌, ◌<◌, nat_eq, arith, length, Bool-cases,
  List-cases, inl, inr, ◌+◌,
}
use multi_tenant_project_man.Base.Monad.{ok}
use multi_tenant_project_man.Prisma.{Model, Prisma}
use multi_tenant_project_man.Schema.{RefreshSession, sessions_model}
use multi_tenant_project_man.World.{World}
use multi_tenant_project_man.Jobs.Cleanup.{
  CleanupResult, fetched, deleted, remaining, delete_batches, rounds, nothing_deleted, is_over,
  cleanup_expired_and_revoked_sessions,
}
use multi_tenant_project_man.Jobs.Batches.{kept_row, left_row, fewer_rows, last_batch, take_short}

module _ {Row : Type 0} (db : Prisma) (m : Model Row) (p : Row → Bool) (batch_size : ℕ) where
  -- The rows that are left are those that do not meet the condition.
  abbrev Cleaned : db.Table m → db.Table m → Type 0
  Cleaned t v =
      ((k : String) (r : Row) → db.find_id m k t ≡ some r → p r ≡ false → db.find_id m k v ≡ some r)
      × ((k : String) (r : Row)
          → db.find_id m k v ≡ some r
          → (p r ≡ false) × (db.find_id m k t ≡ some r))

  nothing_left : (t : db.Table m) → 0 < batch_size → fetched db m p batch_size t ≡ [] → Cleaned t t
  nothing_left t positive empty = (
    λ k r stored other. stored,
    λ k r stored. elim (Bool-cases (p r)) [
      | inr other ↦ (other, stored)
      | inl meets ↦ absurd (
          ground (
            arith,
            db.find_many_complete m p t k r stored meets,
            take_short batch_size (db.find_many m p t) (λ e. ground (arith, empty, e)),
            empty,
          ))
    ],
  )

  batches_end :
      (fuel : ℕ) (done : CleanupResult) (t : db.Table m)
      → 0 < batch_size
      → length (db.find_many m p t) < fuel
      → (result : CleanupResult) × (v : db.Table m) × (delete_batches db m p batch_size fuel done t
          ≡ some (result, v))
        × Cleaned t v
  unfolding delete_batches
  batches_end zero done t positive enough = absurd (omega (arith, enough))
  batches_end (suc fuel) done t positive enough =
      let more : CleanupResult = record {
        deleted_count = done.deleted_count + deleted db m p batch_size t;
        batches = suc done.batches;
      } in
      let t' = remaining db m p batch_size t in
      elim (List-cases (fetched db m p batch_size t)) [
        | inl empty ↦ (done, t, ground (arith, empty), nothing_left t positive empty)
        | inr (r, rs, batch) ↦
            elim (Bool-cases (nat_eq (length (fetched db m p batch_size t)) batch_size)) [
              | inr short ↦ (
                more,
                t',
                ground (arith, batch),
                (
                  kept_row db m p batch_size t,
                  λ k s stored. (
                    last_batch db m p batch_size t k s (ground arith) stored,
                    (left_row db m p batch_size t k s stored).0,
                  ),
                ),
              )
              | inl full ↦
                  let (result, v, ends, cleaned) =
                    batches_end fuel more t' positive
                      (omega (arith, enough, fewer_rows db m p batch_size t r rs batch)) in
                  (
                    result,
                    v,
                    ground (arith, batch),
                    (
                      λ k s stored other.
                          cleaned.0 k s (kept_row db m p batch_size t k s stored other) other,
                      λ k s stored.
                          let (other, before) = cleaned.1 k s stored in
                          (other, (left_row db m p batch_size t k s before).0),
                    ),
                  )
            ]
      ]

module _ {db : Prisma} (w : World db) where
  -- The cleanup of the sessions ends, for every size of a batch above 0: afterwards the
  -- sessions that are neither expired nor revoked are there as they were, and no others.
  pub cleanup_sessions_total :
      (now batch_size : ℕ)
      → 0 < batch_size
      → (result : CleanupResult) × (v : World db) × (cleanup_expired_and_revoked_sessions now
            batch_size w
          ≡ (ok result, v))
        × ((k : String) (s : RefreshSession)
            → db.find_id sessions_model k w.sessions ≡ some s
            → is_over now s ≡ false
            → db.find_id sessions_model k v.sessions ≡ some s)
        × ((k : String) (s : RefreshSession)
            → db.find_id sessions_model k v.sessions ≡ some s
            → (is_over now s ≡ false) × (db.find_id sessions_model k w.sessions ≡ some s))
  unfolding cleanup_expired_and_revoked_sessions
  cleanup_sessions_total now batch_size positive =
      let (result, v, ends, cleaned) =
        batches_end db sessions_model (is_over now) batch_size
          (rounds db sessions_model (is_over now) batch_size w.sessions) nothing_deleted w.sessions
          positive (omega arith) in
      (result, record w { sessions = v }, ground (arith, ends), cleaned.0, cleaned.1)
