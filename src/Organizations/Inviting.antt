-- ===== src/Organizations/Inviting.antt =====
-- organization.service.ts: what inviting, resending and revoking leave in the table.
use multi_tenant_project_man.Base.{
  ℕ, String, true, Option, none, some, [], ◌∷◌, ◌++◌, ◌==◌, ◌+◌, ◌≡◌, ◌≢◌, refl, inl, inr, eq_iff,
  arith, present, or_default, Option-cases, if◌then◌else◌,
}
use multi_tenant_project_man.Base.Monad.{Result, ok, err}
use multi_tenant_project_man.Prisma.{Prisma}
use multi_tenant_project_man.Schema.{
  pending, revoked, is_pending, InvitationStatus, User, Organization, OrganizationInvitation,
  invitations_model,
}
use multi_tenant_project_man.World.{Runtime, World, invitation_email}
use multi_tenant_project_man.Tokens.{hash_token}
use multi_tenant_project_man.Organizations.Repository.{
  find_by_id, find_user_by_email, find_invitation_by_id, find_user_membership, update_invitation,
}
use multi_tenant_project_man.Organizations.Transactions.{
  normalized, create_invitation, refuse_membership, find_pending_invitation,
}
use multi_tenant_project_man.Organizations.Invitations.{
  invitation_lifetime, org_name, AddMemberInput, PendingMember, pending_member, renew_or_create,
  refuse_joined, add_member, find_open, resend_invitation, revoke_invitation,
}

is_pending_eq : (s : InvitationStatus) → is_pending s ≡ true → s ≡ pending
is_pending_eq s h = ground arith

abbrev revoke_row : OrganizationInvitation → OrganizationInvitation
revoke_row i = record i { status = revoked }

abbrev pub renew_row : String → ℕ → OrganizationInvitation → OrganizationInvitation
renew_row token_hash expires_at i = record i { token_hash = token_hash; expires_at = expires_at }

module _ {db : Prisma} (rt : Runtime) (organization_id invitation_id : String)
    (w w' : World db) where
  -- When an invitation that exists is revoked, it is one of the caller's organization and was
  -- pending; afterwards it is revoked, and no other invitation is changed.
  pub revokes_own :
      (i : OrganizationInvitation)
      → find_invitation_by_id invitation_id w ≡ some i
      → revoke_invitation rt organization_id invitation_id w ≡ (ok tt, w')
      → (i.organization_id ≡ organization_id)
        × (i.status ≡ pending)
        × ((k : String)
            → db.find_id invitations_model k w'.invitations ≡ (
                if invitation_id == k
                then some (revoke_row i)
                else db.find_id invitations_model k w.invitations))
  unfolding revoke_invitation find_open find_invitation_by_id update_invitation
  revokes_own i found success =
      let same = db.id-find_id invitations_model invitation_id w.invitations i found in
      (
        ground (arith, eq_iff i.organization_id organization_id),
        ground (arith, is_pending_eq i.status),
        λ k. ground (
          arith,
          same,
          found,
          db.find_id-update invitations_model i.id revoke_row w.invitations w'.invitations k
              (λ r. refl),
          eq_iff i.id k,
          eq_iff invitation_id k,
        ),
      )

  -- When an invitation that exists is resent, it is one of the caller's organization and was
  -- pending; afterwards it has the hash of the new link and an end in 7 days, and no other
  -- invitation is changed.
  pub resends_own :
      (now : ℕ) (raw_token : String) (i : OrganizationInvitation)
      → find_invitation_by_id invitation_id w ≡ some i
      → resend_invitation rt now raw_token organization_id invitation_id w ≡ (ok tt, w')
      → (i.organization_id ≡ organization_id)
        × (i.status ≡ pending)
        × ((k : String)
            → db.find_id invitations_model k w'.invitations ≡ (
                if invitation_id == k
                then some (renew_row (hash_token rt raw_token) (now + invitation_lifetime) i)
                else db.find_id invitations_model k w.invitations))
  unfolding resend_invitation find_open find_invitation_by_id update_invitation
  resends_own now raw_token i found success =
      let same = db.id-find_id invitations_model invitation_id w.invitations i found in
      (
        ground (arith, eq_iff i.organization_id organization_id),
        ground (arith, is_pending_eq i.status),
        λ k. ground (
          arith,
          same,
          found,
          db.find_id-update invitations_model i.id
              (renew_row (hash_token rt raw_token) (now + invitation_lifetime)) w.invitations
              w'.invitations k (λ r. refl),
          eq_iff i.id k,
          eq_iff invitation_id k,
        ),
      )

abbrev refresh_row : OrganizationInvitation → OrganizationInvitation → OrganizationInvitation
refresh_row fresh i = record i {
  token_hash = fresh.token_hash;
  expires_at = fresh.expires_at;
  role = fresh.role;
  status = pending;
}

module _ {db : Prisma} (rt : Runtime) (fresh : OrganizationInvitation) (w w' : World db)
    (id : String) where
  renewed :
      (old : OrganizationInvitation)
      → renew_or_create rt (some old) fresh w ≡ (ok id, w')
      → db.find_id invitations_model old.id w.invitations ≡ some old
      → db.find_id invitations_model id w'.invitations ≡ some (refresh_row fresh old)
  unfolding renew_or_create update_invitation
  renewed old success row = ground (
    arith,
    db.find_id-update invitations_model old.id (refresh_row fresh) w.invitations w'.invitations
        old.id (λ r. refl),
    eq_iff old.id old.id,
  )

  created :
      renew_or_create rt none fresh w ≡ (ok id, w')
      → db.find_id invitations_model id w'.invitations
        ≡ some (record fresh {
          email = normalized rt fresh.email;
          status = pending;
          accepted_at = none;
        })
  unfolding renew_or_create create_invitation
  created success = ground (
    arith,
    db.find_id-create invitations_model
        (record fresh { email = normalized rt fresh.email; status = pending; accepted_at = none })
        w.invitations w'.invitations fresh.id,
    eq_iff fresh.id fresh.id,
  )

renew_or_create_quiet :
    {db : Prisma} (rt : Runtime) (old : Option OrganizationInvitation)
    (fresh : OrganizationInvitation) (w : World db)
    → (renew_or_create rt old fresh w).1.calls ≡ w.calls
unfolding renew_or_create update_invitation create_invitation
renew_or_create_quiet rt none fresh w = ground arith
renew_or_create_quiet rt (some old) fresh w = ground arith

abbrev value_or : {A : Type 0} → A → Result A → A
value_or d (ok b) = b
value_or d (err e) = d

refuse_joined_keeps :
    {db : Prisma} (rt : Runtime) (organization_id : String) (o : Option User) (w : World db)
    → (refuse_joined rt organization_id o w).1 ≡ w
unfolding refuse_joined find_user_membership refuse_membership
refuse_joined_keeps rt organization_id none w = refl
refuse_joined_keeps rt organization_id (some u) w = ground arith

module _ {db : Prisma} (rt : Runtime) (now : ℕ) (raw_token new_id organization_id : String)
    (input : AddMemberInput) (invited_by_id : Option String) (w w' : World db) (m : PendingMember)
    (success : add_member rt now raw_token new_id organization_id input invited_by_id w
      ≡ (ok m, w')) where
  abbrev fresh_of : Organization → OrganizationInvitation
  fresh_of org = record {
    id = new_id;
    organization_id = organization_id;
    email = normalized rt input.email;
    role = input.role;
    token_hash = hash_token rt raw_token;
    invited_by_id = if present invited_by_id then or_default invited_by_id "" else org.owner_id;
    status = pending;
    expires_at = now + invitation_lifetime;
    accepted_at = none;
  }

  abbrev stored : Organization → Result String × World db
  stored org =
      renew_or_create rt (find_pending_invitation rt organization_id (normalized rt input.email) w)
        (fresh_of org) w

  org_exists : find_by_id organization_id w ≢ none
  unfolding add_member
  org_exists absent = ground arith

  pending_member_id :
      (id : String) (o : Option User)
      → (pending_member rt input organization_id id (normalized rt input.email) o).id ≡ id
  unfolding pending_member
  pending_member_id id none = refl
  pending_member_id id (some u) = refl

  stored_ok :
      (org : Organization)
      → find_by_id organization_id w ≡ some org
      → (stored org ≡ (ok m.id, (stored org).1)) × (w'.invitations ≡ (stored org).1.invitations)
  unfolding add_member
  stored_ok org found =
      let o = find_user_by_email (normalized rt input.email) w in
      ground (
        arith,
        success,
        found,
        refuse_joined_keeps rt organization_id o w,
        pending_member_id (value_or "" (stored org).0) o,
      )

  mailed :
      (org : Organization)
      → find_by_id organization_id w ≡ some org
      → w'.calls
        ≡ w.calls
          ++ invitation_email
              (normalized rt input.email)
              raw_token
              (org_name (find_by_id organization_id w))
              input.role
            ∷ []
  unfolding add_member
  mailed org found =
      let o = find_user_by_email (normalized rt input.email) w in
      let renewal = find_pending_invitation rt organization_id (normalized rt input.email) w in
      ground (
        arith,
        success,
        found,
        refuse_joined_keeps rt organization_id o w,
        renew_or_create_quiet rt renewal (fresh_of org) w,
      )

  -- When a member is invited, a pending invitation of the organization stands under the id
  -- that is answered, with the role that was asked for, the hash of a link and an end in 7
  -- days, whether an older one was renewed or not; and that link, with that role, is mailed to
  -- the address, and nothing else is called.
  pub invites :
      (db.find_id invitations_model m.id w'.invitations ≢ none)
      × ((i : OrganizationInvitation)
          → db.find_id invitations_model m.id w'.invitations ≡ some i
          → (i.status ≡ pending)
            × (i.token_hash ≡ hash_token rt raw_token)
            × (i.role ≡ input.role)
            × (i.organization_id ≡ organization_id)
            × (i.expires_at ≡ now + invitation_lifetime))
      × (w'.calls
          ≡ w.calls
            ++ invitation_email
                (normalized rt input.email)
                raw_token
                (org_name (find_by_id organization_id w))
                input.role
              ∷ [])
  unfolding find_pending_invitation
  invites = elim (Option-cases (find_by_id organization_id w)) [
    | inl absent ↦ absurd (org_exists absent)
    | inr (org, found) ↦
        let (renewal, same) = stored_ok org found in
        elim (Option-cases
          (find_pending_invitation rt organization_id (normalized rt input.email) w)) [
            | inl absent ↦
                let row = created rt (fresh_of org) w (stored org).1 m.id (ground arith) in
                (
                  λ missing_row. ground (arith, row, same),
                  λ i found_row. ground (arith, row, same),
                  mailed org found,
                )
            | inr (old, there) ↦
                let (holds, old_row) =
                  db.find_first_sound invitations_model _ w.invitations old there in
                let row =
                  renewed rt (fresh_of org) w (stored org).1 m.id old (ground arith) old_row in
                (
                  λ missing_row. ground (arith, row, same),
                  λ i found_row.
                      ground (arith, row, same, eq_iff old.organization_id organization_id),
                  mailed org found,
                )
          ]
  ]
