-- ===== src/Audit.antt =====
-- modules/activity/activity.service.ts: the activity log, in which each entry carries the hash of
-- the one before it. The entries of one organization stand in the order of their time, the oldest
-- first; no two have the same time.
pub mod Chain
pub mod Gaps
pub mod Lists
use Prim.Native.String
use multi_tenant_project_man.Base.{
  ℕ, zero, suc, String, Bool, true, false, Option, none, some, List, [], ◌∷◌, ◌++◌, ◌+◌, ◌==◌, ◌||◌,
  not, map, if◌then◌else◌, or_default,
}

-- `metadata._security`; JSON read back from the database may lack a field.
pub record Security : Type 0 where
  pub hash : Option String
  pub prev_hash : Option String

-- An ActivityLog with the texts of its enums. Of the metadata, `other` is all that is not `_security`.
pub record ActivityLog : Type 0 where
  pub id : String
  pub organization_id : String
  pub user_id : String
  pub entity_type : String
  pub entity_id : String
  pub action : String
  pub security : Option Security
  pub other : String

-- LogActivityParams, with the object of the metadata and its time as a text; what is no object is
-- replaced by an empty one before.
pub record LogActivityParams : Type 0 where
  pub organization_id : String
  pub user_id : String
  pub entity_type : String
  pub entity_id : String
  pub action : String
  pub metadata : String

-- `'0'.repeat(64)`
abbrev pub zeros : String
zeros = "0000000000000000000000000000000000000000000000000000000000000000"

abbrev joined : String → String → String
joined s t = String.◌++◌ s (String.◌++◌ ":" t)

-- The text that is hashed.
unfoldable pub payload :
    (prev_hash organization_id user_id entity_type entity_id action : String) → String
payload prev_hash organization_id user_id entity_type entity_id action =
    joined prev_hash
      (joined organization_id (joined user_id (joined entity_type (joined entity_id action))))

abbrev pub hash_of : Option Security → Option String
hash_of none = none
hash_of (some s) = s.hash

-- `security?.hash || '0'.repeat(64)`, for a hash that may be missing or empty
abbrev pub hash_or_zeros : Option String → String
hash_or_zeros none = zeros
hash_or_zeros (some h) = if h == "" then zeros else h

-- `findLatestByOrganization`
unfoldable pub latest : List ActivityLog → Option ActivityLog
latest [] = none
latest (l ∷ []) = some l
latest (l ∷ m ∷ logs) = latest (m ∷ logs)

unfoldable pub prev_hash_of : Option ActivityLog → String
prev_hash_of none = zeros
prev_hash_of (some l) = hash_or_zeros (hash_of l.security)

-- What `verifyAuditChainIntegrity` answers; the texts for humans are left out.
pub record Verdict : Type 0 where
  pub valid : Bool
  pub verified_count : ℕ
  pub tampered_log_id : Option String

abbrev broken_at : ℕ → ActivityLog → Verdict
broken_at i l = record { valid = false; verified_count = i; tampered_log_id = some l.id }

-- `security.prevHash` as a text of a template
abbrev pub shown : Option String → String
shown none = "undefined"
shown (some s) = s

abbrev pub same_text : Option String → String → Bool
same_text none s = false
same_text (some t) s = t == s

-- `findAllForVerification`: the oldest entries.
unfoldable pub oldest : ℕ → List ActivityLog → List ActivityLog
oldest zero logs = []
oldest (suc n) [] = []
oldest (suc n) (l ∷ logs) = l ∷ oldest n logs

module _ (sha256_hex : String → String) where
  -- The new entry of `logActivity`, after this one.
  unfoldable pub entry : (id prev_hash : String) → LogActivityParams → ActivityLog
  unfolding payload
  entry id prev_hash params = record {
    id = id;
    organization_id = params.organization_id;
    user_id = params.user_id;
    entity_type = params.entity_type;
    entity_id = params.entity_id;
    action = params.action;
    security = some (record {
      hash = some (
          sha256_hex (
            payload prev_hash params.organization_id params.user_id params.entity_type
              params.entity_id params.action));
      prev_hash = some prev_hash;
    });
    other = params.metadata;
  }

  -- `logActivity`, with the id of the new row
  unfoldable pub log_activity :
      (id : String) → LogActivityParams → List ActivityLog → List ActivityLog
  unfolding entry latest prev_hash_of
  log_activity id params logs = logs ++ entry id (prev_hash_of (latest logs)) params ∷ []

  -- The hash that an entry with this predecessor should have.
  unfoldable pub recomputed : String → ActivityLog → String
  unfolding payload
  recomputed prev_hash l =
      sha256_hex (payload prev_hash l.organization_id l.user_id l.entity_type l.entity_id l.action)

  -- The loop, from entry `i` on.
  unfoldable pub verify_from : (expected_prev_hash : String) → (i : ℕ) → List ActivityLog → Verdict
  unfolding recomputed
  verify_from expected i [] = record { valid = true; verified_count = i; tampered_log_id = none }
  verify_from expected i (l ∷ logs) = elim l.security [
    | none ↦ verify_from expected (i + 1) logs
    | some s ↦ elim s.hash [
      | none ↦ verify_from expected (i + 1) logs
      | some h ↦
          let rest = verify_from h (i + 1) logs in
          let skipped = verify_from expected (i + 1) logs in
          if h == ""
          then skipped
          else if not (same_text s.prev_hash expected)
          then broken_at i l
          else if not (recomputed (shown s.prev_hash) l == h)
          then broken_at i l
          else rest
    ]
  ]

  -- `verifyAuditChainIntegrity`
  unfoldable pub verify_audit_chain : List ActivityLog → Verdict
  unfolding verify_from oldest
  verify_audit_chain logs = verify_from zeros 0 (oldest 500 logs)
