-- ===== src/Tests/Records.antt =====
-- Bloom filters and the activity log at work.
use multi_tenant_project_man.Base.{
  ℕ, zero, suc, ◌+◌, String, ◌≡◌, ◌∷◌, [], List, refl, some, none, true, arith, length,
}
use multi_tenant_project_man.Bloom.{Digests, is_revoked, contains}
use multi_tenant_project_man.Bloom.Denylist.{revoked, after_all, no_revoked, is_revoked_exact}
use multi_tenant_project_man.Audit
use multi_tenant_project_man.Audit.{
  Security, ActivityLog, LogActivityParams, Verdict, verify_from, verify_audit_chain, oldest,
  recomputed,
}
use multi_tenant_project_man.Audit.Chain.{log_all, logged_verifies, verified_chain, IsChained}

abbrev digests : Digests
digests = record { sha256_word = λ s. 1000; md5_word = λ s. 0 }

is_revoked_exact_example :
    (let state = after_all digests (revoked "j2" 900 ∷ []) (no_revoked 2000 3) in
      is_revoked digests "j1" state ≡ contains state.authoritative_set "j1")
is_revoked_exact_example =
    is_revoked_exact digests 2000 3 (revoked "j2" 900 ∷ []) [] "j1" (λ same. absurd cc)

abbrev sha : String → String
sha s = "h"

abbrev params : LogActivityParams
params = record {
  organization_id = "o1";
  user_id = "u1";
  entity_type = "TASK";
  entity_id = "t1";
  action = "CREATED";
  metadata = "title";
}

logged_verifies_example :
    verify_audit_chain sha (log_all sha (("a1", params) ∷ ("a2", params) ∷ []) []) ≡ record {
      valid = true;
      verified_count =
          0 + length (oldest 500 (log_all sha (("a1", params) ∷ ("a2", params) ∷ []) []));
      tampered_log_id = none;
    }
logged_verifies_example =
    logged_verifies sha (λ s same. absurd cc) (("a1", params) ∷ ("a2", params) ∷ [])

abbrev first_log : ActivityLog
first_log = record {
  id = "a1";
  organization_id = "o1";
  user_id = "u1";
  entity_type = "TASK";
  entity_id = "t1";
  action = "CREATED";
  security = some (record { hash = some "h"; prev_hash = some Audit.zeros });
  other = "title";
}

-- An entry that was written past the service.
abbrev foreign_log : ActivityLog
foreign_log = record first_log { id = "a9"; security = none }

one_valid : (verify_audit_chain sha (first_log ∷ [])).valid ≡ true
unfolding verify_audit_chain verify_from oldest recomputed
one_valid = refl

verified_chain_example : IsChained sha Audit.zeros (first_log ∷ [])
verified_chain_example = verified_chain sha (first_log ∷ []) (omega arith) (refl, tt) one_valid

abbrev forged : ActivityLog → String
forged l = "forged"

abbrev repeat : ℕ → List ActivityLog
repeat zero = []
repeat (suc n) = foreign_log ∷ repeat n
