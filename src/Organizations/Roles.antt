-- ===== src/Organizations/Roles.antt =====
-- organization.service.ts: who may change whose role, and what changes.
use multi_tenant_project_man.Base.{
  String, Bool, true, false, Option, none, some, ◌≡◌, ◌≢◌, refl, inl, inr, ◌==◌, ◌&&◌, ◌||◌, eq_iff,
  arith, not, Option-cases, Bool-cases, if◌then◌else◌, ◌⊎◌,
}
use multi_tenant_project_man.Base.Error.{Failure}
use multi_tenant_project_man.Base.Monad.{ok, err}
use multi_tenant_project_man.Prisma.{Prisma, IsPlain, keep_if}
use multi_tenant_project_man.Schema.{
  OrganizationRole, owner, admin, OrganizationMember, members_model, same_role,
}
use multi_tenant_project_man.World.{World}
use multi_tenant_project_man.Organizations.Repository.{
  find_member, update_member_role, remove_member,
}
use multi_tenant_project_man.Organizations.Members.{update_role, remove, not_owner}

abbrev with_role : OrganizationRole → OrganizationMember → OrganizationMember
with_role r m = record m { role = r }

with_role-IsPlain : (r : OrganizationRole) → IsPlain members_model (with_role r)
with_role-IsPlain r = record { id = λ m. refl; clash_left = λ m n. refl; clash_right = λ m n. refl }

-- The caller may give this role to a member of that role.
abbrev pub may_change : OrganizationRole → OrganizationRole → Option OrganizationRole → Bool
may_change from to caller =
    not (same_role from owner)
    && (not (same_role from admin || same_role to admin) || not (not_owner caller))

module _ {db : Prisma} (organization_id user_id : String) (role : OrganizationRole)
    (caller : Option OrganizationRole) (w : World db) where
  found_row :
      (t : OrganizationMember)
      → find_member organization_id user_id w ≡ some t
      → db.find_id members_model t.id w.members ≡ some t
  unfolding find_member
  found_row t found = (db.find_first_sound members_model _ w.members t found).1

  -- When the member exists and the caller may make the change, the member gets the role and no
  -- other member is changed.
  pub update_role_allowed :
      (t : OrganizationMember)
      → find_member organization_id user_id w ≡ some t
      → may_change t.role role caller ≡ true
      → ((update_role organization_id user_id role caller w).0 ≡ ok (with_role role t))
        × ((k : String)
            → db.find_id members_model k
                (update_role organization_id user_id role caller w).1.members
              ≡ (if t.id == k
                  then some (with_role role t)
                  else db.find_id members_model k w.members))
  unfolding update_role update_member_role
  update_role_allowed t found allowed =
      let row = found_row t found in
      let (t', written) =
        db.update_total members_model t.id (with_role role) w.members t (with_role-IsPlain role)
          row in
      (
        ground arith,
        λ k. ground (
          arith,
          db.find_id-update members_model t.id (with_role role) w.members t' k (λ m. refl) written,
          eq_iff t.id k,
        ),
      )

  -- When a change of a role fails, then the member does not exist or the caller may not make
  -- the change, and nothing at all was written.
  pub update_role_refused :
      (e : Failure)
      → (update_role organization_id user_id role caller w).0 ≡ err e
      → ((find_member organization_id user_id w ≡ none)
          ⊎ ((t : OrganizationMember) × (find_member organization_id user_id w ≡ some t)
              × (may_change t.role role caller ≡ false)))
        × ((update_role organization_id user_id role caller w).1 ≡ w)
  unfolding update_role update_member_role
  update_role_refused e failed = elim (Option-cases (find_member organization_id user_id w)) [
    | inl absent ↦ (inl absent, ground arith)
    | inr (t, found) ↦ elim (Bool-cases (may_change t.role role caller)) [
      | inl allowed ↦ absurd (ground (arith, (update_role_allowed t found allowed).0))
      | inr denied ↦ (inr (t, found, denied), ground arith)
    ]
  ]

  -- Whatever change of a role is asked for, by whomever, the row of an owner stays as it is.
  pub owner-update_role :
      (k : String) (m : OrganizationMember)
      → db.find_id members_model k w.members ≡ some m
      → m.role ≡ owner
      → db.find_id members_model k (update_role organization_id user_id role caller w).1.members
        ≡ some m
  unfolding update_role update_member_role
  owner-update_role k m row is_owner = elim (Option-cases (find_member organization_id user_id w)) [
    | inl absent ↦ ground arith
    | inr (t, found) ↦ elim (Bool-cases (may_change t.role role caller)) [
      | inl allowed ↦
          ground
            (arith, (update_role_allowed t found allowed).1 k, found_row t found, eq_iff t.id k)
      | inr denied ↦ ground arith
    ]
  ]

  -- Whatever removal is asked for, by whomever, the row of an owner stays as it is.
  pub owner-remove :
      (k : String) (m : OrganizationMember)
      → db.find_id members_model k w.members ≡ some m
      → m.role ≡ owner
      → db.find_id members_model k (remove organization_id user_id caller w).1.members ≡ some m
  unfolding remove remove_member
  owner-remove k m row is_owner = elim (Option-cases (find_member organization_id user_id w)) [
    | inl absent ↦ ground arith
    | inr (t, found) ↦ ground (
      arith,
      found_row t found,
      db.find_id-delete_many members_model (λ r. r.id == t.id) w.members k,
      db.id-find_id members_model k w.members m row,
      eq_iff m.id t.id,
    )
  ]

  remove_rows :
      (w' : World db)
      → remove organization_id user_id caller w ≡ (ok tt, w')
      → (t : OrganizationMember) × (find_member organization_id user_id w ≡ some t)
        × ((k : String)
            → db.find_id members_model k w'.members
              ≡ keep_if
                  (λ r. if r.id == t.id then false else true)
                  (db.find_id members_model k w.members))
  unfolding remove remove_member
  remove_rows w' done = elim (Option-cases (find_member organization_id user_id w)) [
    | inl absent ↦ absurd (ground arith)
    | inr (t, found) ↦ (
      t,
      found,
      λ k. ground (arith, db.find_id-delete_many members_model (λ r. r.id == t.id) w.members k),
    )
  ]

  -- After a removal that succeeds, the user is no member of the organization, and the row of
  -- every other user is unchanged.
  pub remove_done :
      (w' : World db)
      → remove organization_id user_id caller w ≡ (ok tt, w')
      → (find_member organization_id user_id w' ≡ none)
        × ((k : String) (m : OrganizationMember)
            → db.find_id members_model k w.members ≡ some m
            → m.user_id ≢ user_id
            → db.find_id members_model k w'.members ≡ some m)
  unfolding find_member
  remove_done w' done =
      let (t, found, rows) = remove_rows w' done in
      let (holds, row) = db.find_first_sound members_model _ w.members t found in
      (
        elim (Option-cases (find_member organization_id user_id w')) [
          | inl absent ↦ absent
          | inr (n, still) ↦
              let (holds', row') = db.find_first_sound members_model _ w'.members n still in
              ground (
                arith,
                rows n.id,
                db.distinct members_model w.members t.id n.id t n row,
                eq_iff t.id n.id,
                eq_iff n.id t.id,
                eq_iff t.user_id n.user_id,
                eq_iff t.user_id user_id,
                eq_iff n.user_id user_id,
              )
        ],
        λ k m kept other. ground (
          arith,
          rows k,
          db.id-find_id members_model k w.members m kept,
          eq_iff m.id t.id,
          eq_iff t.user_id user_id,
        ),
      )
