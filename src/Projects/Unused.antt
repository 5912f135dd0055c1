-- ===== src/Projects/Unused.antt =====
-- project.service.ts: the loop of the search for an unused key.
use multi_tenant_project_man.Base.{
  ℕ, zero, suc, String, true, false, none, some, List, [], ◌∷◌, ◌≡◌, ◌≤◌, refl, ◌==◌, eq_iff, arith,
  length, is_some, map, Option-cases, inl, inr,
}
use multi_tenant_project_man.Base.Lists.{
  contains, is_distinct, length_le_of_is_distinct, length-map,
}
use multi_tenant_project_man.Prisma.{Prisma}
use multi_tenant_project_man.Prisma.Many.{contains-find_many}
use multi_tenant_project_man.Schema.Work.{projects_model}
use multi_tenant_project_man.World.{Runtime, World}
use multi_tenant_project_man.Projects.Keys.{candidate_key}
use multi_tenant_project_man.Projects.Repository.{find_by_org_and_key}
use multi_tenant_project_man.Projects.Service.{unused_key, key_rounds, projects_of}
use text.Mathlib.TextLemmas.{append_cancel_left}

-- Different numbers have different texts.
abbrev pub IsInjective : (ℕ → String) → Type 0
IsInjective f = (a b : ℕ) → f a ≡ f b → a ≡ b

module _ (rt : Runtime) (base_key : String) where
  -- The candidates after the first, from a counter on.
  candidates : ℕ → ℕ → List String
  candidates zero counter = []
  candidates (suc n) counter = candidate_key rt base_key (suc counter) ∷ candidates n (suc counter)

  length-candidates : (n counter : ℕ) → length (candidates n counter) ≡ n
  unfolding candidates
  length-candidates zero counter = refl
  length-candidates (suc n) counter = omega (arith, length-candidates n (suc counter))

  module _ (shown : IsInjective rt.number_text) where
    candidate_key_inj :
        (a b : ℕ) → candidate_key rt base_key a ≡ candidate_key rt base_key b → a ≡ b
    unfolding candidate_key
    candidate_key_inj a b same = shown a b (append_cancel_left _ _ _ same)

    later : (n a b : ℕ) → a ≤ b → contains (candidates n b) (candidate_key rt base_key a) ≡ false
    unfolding candidates
    later zero a b h = refl
    later (suc n) a b h = ground (
      arith,
      later n a (suc b),
      candidate_key_inj (suc b) a,
      eq_iff (candidate_key rt base_key (suc b)) (candidate_key rt base_key a),
    )

    is_distinct-candidates : (n counter : ℕ) → is_distinct (candidates n counter) ≡ true
    unfolding candidates
    is_distinct-candidates zero counter = refl
    is_distinct-candidates (suc n) counter =
        ground (arith, is_distinct-candidates n (suc counter), later n (suc counter) (suc counter))

  module _ {db : Prisma} (organization_id : String) (w : World db) where
    first_taken :
        (n : ℕ) (candidate : String) (counter : ℕ)
        → unused_key rt (suc n) organization_id base_key candidate counter w ≡ none
        → is_some (find_by_org_and_key organization_id candidate w) ≡ true
    unfolding unused_key
    first_taken n candidate counter h = ground arith

    all_taken :
        (n : ℕ) (candidate : String) (counter : ℕ) (z : String)
        → unused_key rt (suc n) organization_id base_key candidate counter w ≡ none
        → contains (candidates n counter) z ≡ true
        → is_some (find_by_org_and_key organization_id z w) ≡ true
    unfolding candidates unused_key
    all_taken zero candidate counter z h within = absurd (ground arith)
    all_taken (suc n) candidate counter z h within = ground (
      arith,
      all_taken n (candidate_key rt base_key (suc counter)) (suc counter) z,
      first_taken n (candidate_key rt base_key (suc counter)) (suc counter),
      eq_iff (candidate_key rt base_key (suc counter)) z,
    )

    key_of_project :
        (z : String)
        → is_some (find_by_org_and_key organization_id z w) ≡ true
        → contains (map (λ p. p.key) (projects_of organization_id w)) z ≡ true
    unfolding find_by_org_and_key
    key_of_project z taken = elim (Option-cases (find_by_org_and_key organization_id z w)) [
      | inl absent ↦ absurd (ground arith)
      | inr (p, found) ↦
          let (holds, stored) = db.find_first_sound projects_model _ w.projects p found in
          ground (
            arith,
            contains-find_many db projects_model w.projects (λ q. q.key)
                (λ q. q.organization_id == organization_id) p.id p stored,
            eq_iff p.key z,
          )
    ]

    -- Whatever projects the organization has, the search for a key, with one round for each of
    -- them and two more, ends with a key. Different numbers are taken to have different texts.
    pub unused_key_total :
        (candidate : String)
        → IsInjective rt.number_text
        → (key : String) × (unused_key rt
              (key_rounds organization_id w)
              organization_id
              base_key
              candidate
              1
              w
            ≡ some key)
    unused_key_total candidate shown =
        elim (Option-cases
          (unused_key rt (key_rounds organization_id w) organization_id base_key candidate 1 w)) [
            | inr (key, found) ↦ (key, found)
            | inl stuck ↦
                let rows = suc (length (projects_of organization_id w)) in
                absurd (
                  omega (
                    arith,
                    length_le_of_is_distinct (candidates rows 1)
                        (map (λ p. p.key) (projects_of organization_id w))
                        (is_distinct-candidates shown rows 1)
                        (λ z within. key_of_project z (all_taken rows candidate 1 z stuck within)),
                    length-candidates rows 1,
                    length-map (λ p. p.key) (projects_of organization_id w),
                  ))
          ]

    -- The key that the search gives is that of no project of the organization.
    pub unused_key_free :
        (fuel : ℕ) (candidate : String) (counter : ℕ) (key : String)
        → unused_key rt fuel organization_id base_key candidate counter w ≡ some key
        → find_by_org_and_key organization_id key w ≡ none
    unfolding unused_key
    unused_key_free zero candidate counter key h = absurd (ground arith)
    unused_key_free (suc fuel) candidate counter key h =
        elim (Option-cases (find_by_org_and_key organization_id candidate w)) [
          | inl absent ↦ ground arith
          | inr (p, found) ↦
              unused_key_free fuel (candidate_key rt base_key (suc counter)) (suc counter) key
                (ground arith)
        ]
