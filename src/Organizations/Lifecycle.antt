-- ===== src/Organizations/Lifecycle.antt =====
-- organization.service.ts: what holds of an organization that was created.
use multi_tenant_project_man.Base.{
  String, Option, none, some, ◌≡◌, ◌≢◌, eq_iff, arith, Option-cases, inl, inr, ap, sym, ◌∙◌,
}
use multi_tenant_project_man.Base.Error.{Failure}
use multi_tenant_project_man.Base.Monad.{ok, err, Result-cases}
use multi_tenant_project_man.Prisma.{Prisma}
use multi_tenant_project_man.Prisma.Where.{Write-cases}
use multi_tenant_project_man.Schema.{
  Organization, OrganizationMember, organizations_model, members_model, owner,
}
use multi_tenant_project_man.World.{Runtime, World}
use multi_tenant_project_man.Organizations.Repository.{find_by_slug, find_user_membership}
use multi_tenant_project_man.Organizations.Transactions.{
  create_organization_with_owner, create_organization as insert_organization, create_member,
}
use multi_tenant_project_man.Organizations.Service.{
  CreateOrganizationInput, create_organization, draw_slug,
}

module _ {db : Prisma} (w : World db) where
  -- When the creation of an organization fails, nothing at all was written.
  pub create_organization_atomic :
      (rt : Runtime) (organization_id member_id suffix user_id : String)
      (input : CreateOrganizationInput) (e : Failure)
      → (create_organization rt organization_id member_id suffix user_id input w).0 ≡ err e
      → (create_organization rt organization_id member_id suffix user_id input w).1 ≡ w
  unfolding create_organization draw_slug create_organization_with_owner
  create_organization_atomic rt organization_id member_id suffix user_id input e failed =
      ground arith

  insert_rows :
      (organization_id member_id user_id name slug : String) (o : Organization)
      → (create_organization_with_owner organization_id member_id user_id name slug w).0 ≡ ok o
      → let v = (create_organization_with_owner organization_id member_id user_id name slug w).1 in
        (o ≡ record { id = organization_id; name = name; slug = slug; owner_id = user_id })
        × (db.find_id organizations_model organization_id v.organizations ≡ some o)
        × (db.find_id members_model member_id v.members
            ≡ some (record {
              id = member_id;
              organization_id = organization_id;
              user_id = user_id;
              role = owner;
            }))
        × (find_user_membership user_id w ≡ none)
  unfolding create_organization_with_owner find_user_membership insert_organization create_member
  insert_rows organization_id member_id user_id name slug o passed =
      let row : Organization = record {
        id = organization_id;
        name = name;
        slug = slug;
        owner_id = user_id;
      } in
      let member : OrganizationMember = record {
        id = member_id;
        organization_id = organization_id;
        user_id = user_id;
        role = owner;
      } in
      elim (Option-cases (find_user_membership user_id w)) [
        | inr (m, found) ↦ absurd (ground arith)
        | inl free ↦ elim (Write-cases (db.create organizations_model row w.organizations)) [
          | inr (inl absent) ↦ absurd (ground arith)
          | inr (inr taken) ↦ absurd (ground arith)
          | inl (t, stored) ↦ elim (Write-cases (db.create members_model member w.members)) [
            | inr (inl absent) ↦ absurd (ground arith)
            | inr (inr taken) ↦ absurd (ground arith)
            | inl (s, joined) ↦ (
              ground arith,
              ground (
                arith,
                db.find_id-create organizations_model row w.organizations t organization_id stored,
                eq_iff organization_id organization_id,
              ),
              ground (
                arith,
                db.find_id-create members_model member w.members s member_id joined,
                eq_iff member_id member_id,
              ),
              free,
            )
          ]
        ]
      ]

  draw_slug_reads :
      (rt : Runtime) (suffix name : String) (custom_slug : Option String)
      → (draw_slug rt suffix name custom_slug w).1 ≡ w
  unfolding draw_slug
  draw_slug_reads rt suffix name custom_slug = ground arith

  draw_slug_asked :
      (rt : Runtime) (suffix name asked slug : String)
      → asked ≢ ""
      → (draw_slug rt suffix name (some asked) w).0 ≡ ok slug
      → (slug ≡ asked) × (find_by_slug asked w ≡ none)
  unfolding draw_slug
  draw_slug_asked rt suffix name asked slug full drawn =
      elim (Option-cases (find_by_slug asked w)) [
        | inl free ↦ (ground (arith, eq_iff asked ""), free)
        | inr (o, found) ↦ absurd (ground (arith, eq_iff asked ""))
      ]

  inserted :
      (rt : Runtime) (organization_id member_id suffix user_id : String)
      (input : CreateOrganizationInput) (o : Organization)
      → (create_organization rt organization_id member_id suffix user_id input w).0 ≡ ok o
      → (slug : String) × ((draw_slug rt suffix input.name input.slug w).0 ≡ ok slug)
        × ((create_organization_with_owner organization_id member_id user_id
              (rt.trim input.name)
              slug
              w).0
            ≡ ok o)
        × ((create_organization rt organization_id member_id suffix user_id input w).1.organizations
            ≡ (create_organization_with_owner organization_id member_id user_id
                (rt.trim input.name)
                slug
                w).1.organizations)
        × ((create_organization rt organization_id member_id suffix user_id input w).1.members
            ≡ (create_organization_with_owner organization_id member_id user_id
                (rt.trim input.name)
                slug
                w).1.members)
  unfolding create_organization
  inserted rt organization_id member_id suffix user_id input o passed =
      elim (Result-cases (draw_slug rt suffix input.name input.slug w).0) [
        | inr (e, refused) ↦ absurd (ground arith)
        | inl (slug, drawn) ↦
            let reads = draw_slug_reads rt suffix input.name input.slug in
            (slug, drawn, ground arith, ground arith, ground arith)
      ]

  -- When an organization is created, its user was a member of none before, and is stored as
  -- its owner; the organization is stored under its new id, and a slug that was asked for is
  -- its own and was in use by none.
  pub create_organization_owned :
      (rt : Runtime) (organization_id member_id suffix user_id : String)
      (input : CreateOrganizationInput) (o : Organization)
      → (create_organization rt organization_id member_id suffix user_id input w).0 ≡ ok o
      → let v = (create_organization rt organization_id member_id suffix user_id input w).1 in
        (o.owner_id ≡ user_id)
        × (find_user_membership user_id w ≡ none)
        × (db.find_id organizations_model organization_id v.organizations ≡ some o)
        × (db.find_id members_model member_id v.members
            ≡ some (record {
              id = member_id;
              organization_id = organization_id;
              user_id = user_id;
              role = owner;
            }))
        × ((slug : String)
            → input.slug ≡ some slug
            → slug ≢ ""
            → (o.slug ≡ slug) × (find_by_slug slug w ≡ none))
  create_organization_owned rt organization_id member_id suffix user_id input o passed =
      let (slug, drawn, done_rows, organizations, members) =
        inserted rt organization_id member_id suffix user_id input o passed in
      let (same, stored, joined, free) =
        insert_rows organization_id member_id user_id (rt.trim input.name) slug o done_rows in
      (
        ap (λ p. p.owner_id) same,
        free,
        ap (db.find_id organizations_model organization_id) organizations ∙ stored,
        ap (db.find_id members_model member_id) members ∙ joined,
        λ asked given full.
            let (same_slug, unused) =
              draw_slug_asked rt suffix input.name asked slug full
                (ap (λ s. (draw_slug rt suffix input.name s w).0) (sym given) ∙ drawn) in
            (ap (λ p. p.slug) same ∙ same_slug, unused),
      )
