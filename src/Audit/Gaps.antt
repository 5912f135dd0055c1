-- ===== src/Audit/Gaps.antt =====
-- activity.service.ts: what the verification of the chain does not notice.
use multi_tenant_project_man.Base.{
  ℕ, zero, suc, String, none, List, [], ◌∷◌, ◌++◌, ◌+◌, ◌≡◌, refl, arith, map, length, ap, sym, ◌∙◌,
  Option-cases, inl, inr,
}
use multi_tenant_project_man.Audit.{
  ActivityLog, zeros, hash_of, recomputed, verify_from, oldest, verify_audit_chain,
}
use multi_tenant_project_man.Audit.Chain.{oldest_all}

-- An entry with other metadata.
abbrev pub with_metadata : (ActivityLog → String) → ActivityLog → ActivityLog
with_metadata change l = record l { other = change l }

oldest_append :
    (n : ℕ) (before later : List ActivityLog)
    → length before ≡ n
    → oldest n (before ++ later) ≡ before
unfolding oldest
oldest_append zero [] later full = refl
oldest_append zero (l ∷ before) later full = absurd (omega arith)
oldest_append (suc n) [] later full = absurd (omega arith)
oldest_append (suc n) (l ∷ before) later full =
    ap (λ ls. l ∷ ls) (oldest_append n before later (omega arith))

module _ (sha256_hex : String → String) where
  -- Of a log with more than 500 entries, the outcome of the verification depends on the first
  -- 500 alone.
  pub newest_unnoticed :
      (before later : List ActivityLog)
      → length before ≡ 500
      → verify_audit_chain sha256_hex (before ++ later) ≡ verify_audit_chain sha256_hex before
  unfolding verify_audit_chain
  newest_unnoticed before later full =
      ap (verify_from sha256_hex zeros 0)
        (oldest_append 500 before later full ∙ sym (oldest_all 500 before (omega arith)))

  valid_index :
      (expected : String) (i j : ℕ) (logs : List ActivityLog)
      → (verify_from sha256_hex expected i logs).valid
        ≡ (verify_from sha256_hex expected j logs).valid
  unfolding verify_from
  valid_index expected i j [] = refl
  valid_index expected i j (l ∷ logs) = elim (Option-cases (hash_of l.security)) [
    | inl absent ↦ ground (arith, valid_index expected (i + 1) (j + 1) logs)
    | inr (h, hashed) ↦
        ground
          (arith, valid_index expected (i + 1) (j + 1) logs, valid_index h (i + 1) (j + 1) logs)
  ]

  -- An entry without a hash, put anywhere into a log, does not change whether the log
  -- verifies.
  pub insert_unnoticed :
      (expected : String) (i : ℕ) (before later : List ActivityLog) (l : ActivityLog)
      → l.security ≡ none
      → (verify_from sha256_hex expected i (before ++ l ∷ later)).valid
        ≡ (verify_from sha256_hex expected i (before ++ later)).valid
  unfolding verify_from
  insert_unnoticed expected i [] later l unchained =
      ground (arith, valid_index expected (i + 1) i later)
  insert_unnoticed expected i (m ∷ before) later l unchained =
      elim (Option-cases (hash_of m.security)) [
        | inl absent ↦ ground (arith, insert_unnoticed expected (i + 1) before later l unchained)
        | inr (h, hashed) ↦ ground (
          arith,
          insert_unnoticed expected (i + 1) before later l unchained,
          insert_unnoticed h (i + 1) before later l unchained,
        )
      ]

  -- A change of the metadata of all entries, less their hashes, changes nothing in the outcome
  -- of the verification.
  pub metadata_unnoticed :
      (change : ActivityLog → String) (expected : String) (i : ℕ) (logs : List ActivityLog)
      → verify_from sha256_hex expected i (map (with_metadata change) logs)
        ≡ verify_from sha256_hex expected i logs
  unfolding verify_from recomputed
  metadata_unnoticed change expected i [] = refl
  metadata_unnoticed change expected i (l ∷ logs) = elim (Option-cases (hash_of l.security)) [
    | inl absent ↦ ground (arith, metadata_unnoticed change expected (i + 1) logs)
    | inr (h, hashed) ↦ ground (
      arith,
      metadata_unnoticed change expected (i + 1) logs,
      metadata_unnoticed change h (i + 1) logs,
    )
  ]
