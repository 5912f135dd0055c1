-- ===== src/Bloom/Denylist.antt =====
-- utils/bloom.ts: the ids of revoked access tokens, as one process knows them.
use multi_tenant_project_man.Base.{
  ℕ, String, Bool, true, false, Option, none, some, List, [], ◌∷◌, ◌==◌, ◌&&◌, ◌||◌, ◌≡◌, ◌≢◌,
  subst, arith, ltb, eq_iff, length, Bool-cases, inl, inr,
}
use multi_tenant_project_man.Bloom.{
  Digests, has, Revoked, contains, insert, remember, revoke, is_revoked, is_revoked_distributed,
  clear_local_state, prune, bloom_filter,
}
use multi_tenant_project_man.Bloom.Filter.{
  IsWellFormed, new_IsWellFormed, add-IsWellFormed, has-add, clear-IsWellFormed,
}

-- The calls that a process makes of the service.
pub data Event : Type 0 where
  revoked : (jti : String) → (ttl_seconds : ℕ) → Event
  checked : (jti : String) → (exists : Option Bool) → Event
  cleared pruned : Event

unfoldable pub after : Digests → Event → Revoked → Revoked
unfolding revoke is_revoked_distributed clear_local_state prune
after d (revoked jti ttl_seconds) s = (revoke d jti ttl_seconds s).1
after d (checked jti exists) s = (is_revoked_distributed d jti exists s).1
after d cleared s = clear_local_state s
after d pruned s = prune s

unfoldable pub after_all : Digests → List Event → Revoked → Revoked
unfolding after
after_all d [] s = s
after_all d (e ∷ events) s = after_all d events (after d e s)

-- The filter knows every id of the set.
pub record IsConsistent (d : Digests) (s : Revoked) : Type 0 where
  pub well_formed : IsWellFormed s.bloom
  pub known :
      (jti : String) → jti ≢ "" → contains s.authoritative_set jti ≡ true → has d jti s.bloom ≡ true

contains-insert :
    (jti id : String) (ids : List String)
    → contains (insert jti ids) id ≡ (jti == id || contains ids id)
contains-insert jti id ids = elim (Bool-cases (contains ids jti)) [
  | inl there ↦ ground (arith, eq_iff jti id)
  | inr new ↦ ground arith
]

module _ (d : Digests) (s : Revoked) (consistent : IsConsistent d s) where
  remember-IsConsistent : (jti : String) → jti ≢ "" → IsConsistent d (remember d jti s)
  remember-IsConsistent jti given = record {
    well_formed = add-IsWellFormed d s.bloom consistent.well_formed jti;
    known = λ id named inside. elim (Bool-cases (jti == id)) [
      | inl same ↦
          has-add d s.bloom consistent.well_formed jti id given (inl ((eq_iff jti id).0 same))
      | inr other ↦ has-add d s.bloom consistent.well_formed jti id given (
          inr (
            consistent.known id named (ground (arith, contains-insert jti id s.authoritative_set))))
    ];
  }

  clear-IsConsistent : IsConsistent d (clear_local_state s)
  unfolding clear_local_state
  clear-IsConsistent = record {
    well_formed = clear-IsWellFormed s.bloom consistent.well_formed;
    known = λ jti named inside. absurd (ground arith);
  }

  after-IsConsistent : (e : Event) → IsConsistent d (after d e s)
  unfolding after revoke is_revoked_distributed prune
  after-IsConsistent (revoked jti ttl_seconds) = elim (Bool-cases (jti == "")) [
    | inl empty ↦ subst (IsConsistent d) (ground arith) consistent
    | inr named ↦
        subst (IsConsistent d) (ground arith)
          (remember-IsConsistent jti (ground (arith, eq_iff jti "")))
  ]
  after-IsConsistent (checked jti none) = subst (IsConsistent d) (ground arith) consistent
  after-IsConsistent (checked jti (some false)) = subst (IsConsistent d) (ground arith) consistent
  after-IsConsistent (checked jti (some true)) =
      elim (Bool-cases (jti == "" || is_revoked d jti s)) [
        | inl settled ↦ subst (IsConsistent d) (ground arith) consistent
        | inr asked ↦
            subst (IsConsistent d) (ground arith)
              (remember-IsConsistent jti (ground (arith, eq_iff jti "")))
      ]
  after-IsConsistent cleared = clear-IsConsistent
  after-IsConsistent pruned = elim (Bool-cases (ltb 200000 (length s.authoritative_set))) [
    | inl many ↦ subst (IsConsistent d) (ground arith) clear-IsConsistent
    | inr few ↦ subst (IsConsistent d) (ground arith) consistent
  ]

  -- The filter only speeds the check up: the answer is that of the set.
  pub is_revoked-contains :
      (jti : String) → jti ≢ "" → is_revoked d jti s ≡ contains s.authoritative_set jti
  unfolding is_revoked
  is_revoked-contains jti named = ground (arith, eq_iff jti "", consistent.known jti named)

-- No event of these forgets an id.
abbrev pub is_lasting : Event → Bool
is_lasting cleared = false
is_lasting pruned = false
is_lasting _ = true

abbrev pub all_lasting : List Event → Bool
all_lasting [] = true
all_lasting (e ∷ events) = is_lasting e && all_lasting events

after-contains :
    (d : Digests) (s : Revoked) (e : Event) (jti : String)
    → is_lasting e ≡ true
    → contains s.authoritative_set jti ≡ true
    → contains (after d e s).authoritative_set jti ≡ true
unfolding after revoke is_revoked_distributed
after-contains d s (revoked id ttl_seconds) jti lasting inside =
    ground (arith, contains-insert id jti s.authoritative_set)
after-contains d s (checked id exists) jti lasting inside =
    ground (arith, contains-insert id jti s.authoritative_set)
after-contains d s cleared jti lasting inside = cc
after-contains d s pruned jti lasting inside = cc

pub after_all-IsConsistent :
    (d : Digests) (s : Revoked) (events : List Event)
    → IsConsistent d s
    → IsConsistent d (after_all d events s)
unfolding after_all
after_all-IsConsistent d s [] consistent = consistent
after_all-IsConsistent d s (e ∷ events) consistent =
    after_all-IsConsistent d (after d e s) events (after-IsConsistent d s consistent e)

after_all-contains :
    (d : Digests) (s : Revoked) (events : List Event) (jti : String)
    → all_lasting events ≡ true
    → contains s.authoritative_set jti ≡ true
    → contains (after_all d events s).authoritative_set jti ≡ true
unfolding after_all
after_all-contains d s [] jti lasting inside = inside
after_all-contains d s (e ∷ events) jti lasting inside =
    after_all-contains d (after d e s) events jti (ground arith)
      (after-contains d s e jti (ground arith) inside)

-- The state of a new process.
abbrev pub no_revoked : (optimal_size optimal_count : ℕ) → Revoked
no_revoked optimal_size optimal_count = record {
  bloom = bloom_filter optimal_size optimal_count;
  authoritative_set = [];
}

pub no_revoked-IsConsistent :
    (d : Digests) (optimal_size optimal_count : ℕ)
    → IsConsistent d (no_revoked optimal_size optimal_count)
no_revoked-IsConsistent d optimal_size optimal_count = record {
  well_formed = new_IsWellFormed optimal_size optimal_count;
  known = λ jti named inside. absurd (ground arith);
}

module _ (d : Digests) (optimal_size optimal_count : ℕ) (before later : List Event) where
  abbrev known_before : Revoked
  known_before = after_all d before (no_revoked optimal_size optimal_count)

  -- After any calls of the denylist, including pruning, the local check of an id that is not
  -- empty is membership in the set of revoked ids: the Bloom filter makes no answer wrong.
  pub is_revoked_exact :
      (jti : String)
      → jti ≢ ""
      → is_revoked d jti known_before ≡ contains known_before.authoritative_set jti
  is_revoked_exact jti named =
      is_revoked-contains d known_before
        (after_all-IsConsistent d _ before (no_revoked-IsConsistent d optimal_size optimal_count))
        jti named

  -- In a process that starts with an empty denylist and has had any calls, once a token id
  -- that is not empty is revoked, the check says so whatever Redis answers, as long as only
  -- revocations and checks follow.
  pub revoked_stays :
      (jti : String) (ttl_seconds : ℕ) (exists : Option Bool)
      → jti ≢ ""
      → all_lasting later ≡ true
      → (is_revoked_distributed d jti exists
          (after_all d later (after d (revoked jti ttl_seconds) known_before))).0
        ≡ some true
  unfolding is_revoked_distributed
  revoked_stays jti ttl_seconds exists named lasting =
      let start = no_revoked-IsConsistent d optimal_size optimal_count in
      let sound = after_all-IsConsistent d _ before start in
      let added = after-IsConsistent d known_before sound (revoked jti ttl_seconds) in
      let last = after_all-IsConsistent d _ later added in
      let inside : contains (after d (revoked jti ttl_seconds) known_before).authoritative_set jti
          ≡ true =
        unfold after in
        unfold revoke in
        ground (
          arith,
          eq_iff jti "",
          eq_iff jti jti,
          contains-insert jti jti known_before.authoritative_set,
        ) in
      let revoked_now = after d (revoked jti ttl_seconds) known_before in
      let still = after_all-contains d revoked_now later jti lasting inside in
      let answer = is_revoked-contains d (after_all d later revoked_now) last jti named in
      ground (arith, answer, still, eq_iff jti "")
