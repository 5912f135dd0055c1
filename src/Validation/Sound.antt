-- ===== src/Validation/Sound.antt =====
-- Validation.antt: which lists of users the check lets through.
use multi_tenant_project_man.Base.{
  Option, none, some, or_default, refl, String, Bool, true, some, List, [], ◌∷◌, ◌≡◌, refl, ◌==◌,
  ◌&&◌, eq_iff, arith, length, is_some, map, Option-cases, inl, inr, sym, ◌∙◌, ◌↔◌,
}
use multi_tenant_project_man.Base.Error.{AppError}
use multi_tenant_project_man.Base.Lists.{
  contains, unique, is_distinct, covers, contains-unique, is_distinct-unique,
  length_le_of_is_distinct, length-map,
}
use multi_tenant_project_man.Base.Monad.{ok}
use multi_tenant_project_man.Prisma.{Prisma}
use multi_tenant_project_man.Prisma.Many.{
  source_of, is_distinct-column, IsStored-many, contains-find_many,
}
use multi_tenant_project_man.Schema.{OrganizationMember, members_model}
use multi_tenant_project_man.World.{World}
use multi_tenant_project_man.Organizations.Repository.{find_member}
use multi_tenant_project_man.Validation.{org_members, validate_members}

module _ {db : Prisma} (organization_id : String) (w : World db) where
  abbrev wanted : List String → OrganizationMember → Bool
  wanted ids m = m.organization_id == organization_id && contains ids m.user_id

  abbrev found_users : List String → List String
  found_users ids = map (λ m. m.user_id) (db.find_many members_model (wanted ids) w.members)

  is_distinct-found_users : (ids : List String) → is_distinct (found_users ids) ≡ true
  is_distinct-found_users ids =
      is_distinct-column db members_model w.members (λ m. m.user_id)
        (λ r s found found' other same. ground (
          arith,
          db.distinct members_model w.members r.id s.id r s found found' other,
          eq_iff r.user_id s.user_id,
        ))
        _ (IsStored-many db members_model w.members (λ m. m.user_id) (wanted ids))
        (db.find_many_distinct members_model (wanted ids) w.members)

  contains-found_users :
      (ids : List String) (z : String)
      → contains (found_users ids) z ≡ true
      → (contains ids z ≡ true) × (is_some (find_member organization_id z w) ≡ true)
  unfolding find_member
  contains-found_users ids z h =
      let (m, user, holds, stored) =
        source_of db members_model w.members (λ m. m.user_id) (wanted ids) _ z
          (db.find_many_sound members_model (wanted ids) w.members) h in
      (
        ground (arith, user, holds),
        elim (Option-cases (find_member organization_id z w)) [
          | inl absent ↦ absurd (
              ground (
                arith,
                db.find_first_complete members_model
                    (λ n. n.organization_id == organization_id && n.user_id == z) w.members m.id m
                    absent stored,
                eq_iff m.user_id z,
              ))
          | inr (n, found) ↦ ground arith
        ],
      )

  found_users-contains :
      (ids : List String) (z : String)
      → contains ids z ≡ true
      → is_some (find_member organization_id z w) ≡ true
      → contains (found_users ids) z ≡ true
  unfolding find_member
  found_users-contains ids z given is_member =
      elim (Option-cases (find_member organization_id z w)) [
        | inl absent ↦ absurd (ground arith)
        | inr (m, found) ↦
            let (holds, stored) = db.find_first_sound members_model _ w.members m found in
            ground (
              arith,
              contains-find_many db members_model w.members (λ m. m.user_id) (wanted ids) m.id m
                  stored,
              eq_iff m.user_id z,
            )
      ]

  abbrev AllMembers : List String → Type 0
  AllMembers ids =
      (z : String) → contains ids z ≡ true → is_some (find_member organization_id z w) ≡ true

  -- As many memberships as ids are found exactly where each id is that of a member.
  counted :
      (ids : List String)
      → is_distinct ids ≡ true
      → (length (db.find_many members_model (wanted ids) w.members) ≡ length ids) ↔ AllMembers ids
  counted ids once = (
    λ same z given.
        (contains-found_users ids z (
          covers (found_users ids) ids (is_distinct-found_users ids) once
            (λ u within. (contains-found_users ids u within).0)
            (omega (
              arith,
              same,
              length-map (λ m. m.user_id) (db.find_many members_model (wanted ids) w.members),
            ))
            z given)).1,
    λ members. omega (
      arith,
      length-map (λ m. m.user_id) (db.find_many members_model (wanted ids) w.members),
      length_le_of_is_distinct ids (found_users ids) once
          (λ z given. found_users-contains ids z given (members z given)),
      length_le_of_is_distinct (found_users ids) ids (is_distinct-found_users ids)
          (λ z within. (contains-found_users ids z within).0),
    ),
  )

  pub members_of_unique : (ids : List String) → AllMembers (unique ids) → AllMembers ids
  members_of_unique ids all z given = all z (contains-unique ids z ∙ given)

  pub unique_of_members : (ids : List String) → AllMembers ids → AllMembers (unique ids)
  unique_of_members ids all z given = all z (sym (contains-unique ids z) ∙ given)

  -- A list of users is let through, without its repetitions and with nothing changed, exactly
  -- where each of its users is a member of the organization.
  pub validate_exact :
      (refusal : AppError) (ids : List String)
      → ((members : List OrganizationMember) × (validate_members refusal organization_id
              (some ids)
              w
            ≡ (ok (unique ids, members), w)))
        ↔ AllMembers ids
  unfolding validate_members org_members
  validate_exact refusal [] = (λ _ z given. absurd (ground arith), λ _. ([], refl))
  validate_exact refusal (id ∷ ids) =
      let exact = counted (unique (id ∷ ids)) (is_distinct-unique (id ∷ ids)) in
      (
        λ passed. members_of_unique (id ∷ ids) (exact.0 (ground (arith, passed.1))),
        λ members. (
          db.find_many members_model (wanted (unique (id ∷ ids))) w.members,
          ground (arith, exact.1 (unique_of_members (id ∷ ids) members)),
        ),
      )

  AllMembers-nil : AllMembers []
  AllMembers-nil z given = absurd (ground arith)

  pub validated :
      (refusal : AppError) (asked : Option (List String)) (ids : List String)
      (members : List OrganizationMember)
      → (validate_members refusal organization_id asked w).0 ≡ ok (ids, members)
      → (ids ≡ unique (or_default asked [])) × AllMembers (or_default asked [])
  unfolding validate_members org_members
  validated refusal none ids members passed = (ground arith, AllMembers-nil)
  validated refusal (some []) ids members passed = (ground arith, AllMembers-nil)
  validated refusal (some (id ∷ given)) ids members passed = (
    ground arith,
    (validate_exact refusal (id ∷ given)).0 (
      db.find_many members_model (wanted (unique (id ∷ given))) w.members,
      unfold validate_members in unfold org_members in ground arith,
    ),
  )
