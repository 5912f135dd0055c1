-- ===== src/Audit/Chain.antt =====
-- activity.service.ts: what the verification of the chain accepts.
use multi_tenant_project_man.Base.{
  ℕ, zero, suc, String, Bool, true, false, none, some, List, [], ◌∷◌, ◌++◌, ◌+◌, ◌==◌, ◌≡◌, ◌≢◌,
  ◌≤◌, refl, arith, not, length, eq_iff, All, ap, subst, Option-cases, inl, inr,
}
use multi_tenant_project_man.Audit.{
  Security, ActivityLog, LogActivityParams, zeros, payload, hash_of, latest, prev_hash_of, entry,
  log_activity, recomputed, verify_from, oldest, verify_audit_chain,
}

-- Each entry carries the hash of its own data and of the hash before it.
abbrev pub chain_link : String → String → Security
chain_link hash prev_hash = record { hash = some hash; prev_hash = some prev_hash }

pub oldest_all : (n : ℕ) (logs : List ActivityLog) → length logs ≤ n → oldest n logs ≡ logs
unfolding oldest
oldest_all zero [] few = refl
oldest_all zero (l ∷ logs) few = absurd (omega arith)
oldest_all (suc n) [] few = refl
oldest_all (suc n) (l ∷ logs) few = ap (λ ls. l ∷ ls) (oldest_all n logs (omega arith))

module _ (sha256_hex : String → String) where
  abbrev pub IsChained : String → List ActivityLog → Type 0
  IsChained expected [] = Unit {0}
  IsChained expected (l ∷ logs) =
      (l.security ≡ some (chain_link (recomputed sha256_hex expected l) expected))
      × IsChained (recomputed sha256_hex expected l) logs

  -- The log after these calls, on a log that is empty at first.
  unfoldable pub log_all : List (String × LogActivityParams) → List ActivityLog → List ActivityLog
  unfolding log_activity
  log_all [] logs = logs
  log_all ((id, params) ∷ calls) logs = log_all calls (log_activity sha256_hex id params logs)

  oldest-IsChained :
      (n : ℕ) (expected : String) (logs : List ActivityLog)
      → IsChained expected logs
      → IsChained expected (oldest n logs)
  unfolding oldest
  oldest-IsChained zero expected logs chained = tt
  oldest-IsChained (suc n) expected [] chained = tt
  oldest-IsChained (suc n) expected (l ∷ logs) (here, rest) =
      (here, oldest-IsChained n (recomputed sha256_hex expected l) logs rest)

  module _ (filled : (s : String) → sha256_hex s ≢ "") where
    append-IsChained :
        (expected : String) (l : ActivityLog) (logs : List ActivityLog) (id : String)
        (params : LogActivityParams)
        → IsChained expected (l ∷ logs)
        → IsChained expected
            (l ∷ (logs ++ entry sha256_hex id (prev_hash_of (latest (l ∷ logs))) params ∷ []))
    unfolding latest entry prev_hash_of recomputed
    append-IsChained expected l [] id params (here, rest) = (
      here,
      (
        ground (
          arith,
          eq_iff (recomputed sha256_hex expected l) "",
          filled (payload expected l.organization_id l.user_id l.entity_type l.entity_id l.action),
          here,
        ),
        tt,
      ),
    )
    append-IsChained expected l (m ∷ logs) id params (here, rest) =
        (here, append-IsChained (recomputed sha256_hex expected l) m logs id params rest)

    log-IsChained :
        (logs : List ActivityLog) (id : String) (params : LogActivityParams)
        → IsChained zeros logs
        → IsChained zeros (log_activity sha256_hex id params logs)
    unfolding log_activity
    log-IsChained [] id params chained =
        (unfold entry in unfold latest in unfold prev_hash_of in unfold recomputed in refl, tt)
    log-IsChained (l ∷ logs) id params chained = append-IsChained zeros l logs id params chained

    pub log_all-IsChained :
        (calls : List (String × LogActivityParams)) (logs : List ActivityLog)
        → IsChained zeros logs
        → IsChained zeros (log_all calls logs)
    unfolding log_all
    log_all-IsChained [] logs chained = chained
    log_all-IsChained ((id, params) ∷ calls) logs chained =
        log_all-IsChained calls (log_activity sha256_hex id params logs)
          (log-IsChained logs id params chained)

    recomputed_filled :
        (expected : String) (l : ActivityLog) → recomputed sha256_hex expected l ≢ ""
    unfolding recomputed
    recomputed_filled expected l = filled _

    verify_from_chained :
        (expected : String) (i : ℕ) (logs : List ActivityLog)
        → IsChained expected logs
        → verify_from sha256_hex expected i logs
          ≡ record { valid = true; verified_count = i + length logs; tampered_log_id = none }
    unfolding verify_from
    verify_from_chained expected i [] chained =
        ap (λ n. record { valid = true; verified_count = n; tampered_log_id = none }) (omega arith)
    verify_from_chained expected i (l ∷ logs) (here, rest) = ground (
      arith,
      here,
      verify_from_chained (recomputed sha256_hex expected l) (i + 1) logs rest,
      eq_iff expected expected,
      eq_iff (recomputed sha256_hex expected l) (recomputed sha256_hex expected l),
      eq_iff (recomputed sha256_hex expected l) "",
      recomputed_filled expected l,
    )

    -- Where no hash is the empty text, the log that any sequence of logActivity calls makes of
    -- an empty one verifies, and the number of entries that were read, the oldest 500 at most,
    -- is reported.
    pub logged_verifies :
        (calls : List (String × LogActivityParams))
        → verify_audit_chain sha256_hex (log_all calls []) ≡ record {
          valid = true;
          verified_count = 0 + length (oldest 500 (log_all calls []));
          tampered_log_id = none;
        }
    unfolding verify_audit_chain
    logged_verifies calls =
        verify_from_chained zeros 0 (oldest 500 (log_all calls []))
          (oldest-IsChained 500 zeros (log_all calls []) (log_all-IsChained calls [] tt))

  -- Every entry has been given a hash.
  abbrev pub has_hash : ActivityLog → Bool
  has_hash l = elim (hash_of l.security) [ none ↦ false | some h ↦ not (h == "") ]

  link_sound :
      (expected : String) (i : ℕ) (l : ActivityLog) (logs : List ActivityLog)
      → has_hash l ≡ true
      → (verify_from sha256_hex expected i (l ∷ logs)).valid ≡ true
      → (l.security ≡ some (chain_link (recomputed sha256_hex expected l) expected))
        × ((verify_from sha256_hex (recomputed sha256_hex expected l) (i + 1) logs).valid ≡ true)
  unfolding verify_from
  link_sound expected i l logs here holds = elim (Option-cases l.security) [
    | inl absent ↦ absurd (ground arith)
    | inr (s, secured) ↦ elim (Option-cases s.hash) [
      | inl absent ↦ absurd (ground arith)
      | inr (h, hashed) ↦ elim (Option-cases s.prev_hash) [
        | inl absent ↦ absurd (ground arith)
        | inr (p, linked) ↦ ground (
          arith,
          eq_iff p expected,
          eq_iff (recomputed sha256_hex p l) h,
          secured,
          hashed,
          linked,
        )
      ]
    ]
  ]

  verify_from_sound :
      (expected : String) (i : ℕ) (logs : List ActivityLog)
      → All (λ l. has_hash l ≡ true) logs
      → (verify_from sha256_hex expected i logs).valid ≡ true
      → IsChained expected logs
  unfolding verify_from
  verify_from_sound expected i [] hashed holds = tt
  verify_from_sound expected i (l ∷ logs) (here, there) holds =
      let (linked, rest) = link_sound expected i l logs here holds in
      (linked, verify_from_sound (recomputed sha256_hex expected l) (i + 1) logs there rest)

  -- When a log of at most 500 entries, all of which have a hash, verifies, then each entry has
  -- the hash of its own data and of the hash before it, from the zeros on.
  pub verified_chain :
      (logs : List ActivityLog)
      → length logs ≤ 500
      → All (λ l. has_hash l ≡ true) logs
      → (verify_audit_chain sha256_hex logs).valid ≡ true
      → IsChained zeros logs
  unfolding verify_audit_chain
  verified_chain logs few hashed holds = verify_from_sound zeros 0 logs hashed (
      subst (λ ls. (verify_from sha256_hex zeros 0 ls).valid ≡ true) (oldest_all 500 logs few)
        holds)
