-- ===== src/Organizations/Acceptance.antt =====
-- The transaction that accepts an invitation.
use multi_tenant_project_man.Base.{
  inl, inr, Bool, ℕ, String, Option, none, some, ◌==◌, ◌&&◌, not, if◌then◌else◌, ◌≡◌, ◌≤◌, refl,
  eq_iff, arith, map_option, Option-cases,
}
use multi_tenant_project_man.Base.Monad.{Result, ok, err}
use multi_tenant_project_man.Prisma.{Prisma, IsPlain, Write, done, written}
use multi_tenant_project_man.Schema.{
  users_model, pending, accepted, invalidated, User, OrganizationMember, OrganizationInvitation,
  invitations_model, members_model, is_pending,
}
use multi_tenant_project_man.World.{Runtime, World}
use multi_tenant_project_man.Organizations.Repository.{find_user_by_email, find_invitation_by_id}
use multi_tenant_project_man.Organizations.Transactions.{
  AcceptParams, normalized, accept_invitation_transaction, user_to_join, join, new_member,
}

-- The changes of an invitation's row.
abbrev pub accept_row : ℕ → OrganizationInvitation → OrganizationInvitation
accept_row now i = record i { status = accepted; accepted_at = some now }

abbrev pub close_row : OrganizationInvitation → OrganizationInvitation
close_row i = record i { status = invalidated }

abbrev pub is_other : String → String → OrganizationInvitation → Bool
is_other email id i = i.email == email && (is_pending i.status && not (i.id == id))

abbrev value_or : {A : Type 0} → A → Result A → A
value_or a (ok b) = b
value_or a (err e) = a

abbrev mark :
    {db : Prisma} → ℕ → OrganizationInvitation → World db → Write (db.Table invitations_model)
mark {db} now i w = db.update invitations_model i.id (accept_row now) w.invitations

module _ {db : Prisma} (now : ℕ) (member_id : String) (params : AcceptParams) (email : String) where
  -- What the tables are after a membership is recorded.
  join_tables :
      (i : OrganizationInvitation) (v u : User) (m : OrganizationMember) (w w' : World db)
      → join now member_id params email i v w ≡ (ok (u, m), w')
      → (db.create members_model (new_member member_id params v) w.members ≡ done w'.members)
        × (mark now i w ≡ done (written w.invitations (mark now i w)))
        × (w'.invitations
            ≡ db.update_many invitations_model
                (is_other email i.id)
                close_row
                (written w.invitations (mark now i w)))
        × (u ≡ v)
        × (m ≡ new_member member_id params v)
  unfolding join
  join_tables i v u m w w' e = ground arith

-- The user who joins is the one with the address, or a new one.
module _ {db : Prisma} (new_user_id : String) (params : AcceptParams) (email : String)
    (w : World db) where
  user_to_join-members :
      (o : Option User) → (user_to_join new_user_id params email o w).1.members ≡ w.members
  unfolding user_to_join
  user_to_join-members none = ground arith
  user_to_join-members (some v) = ground arith

  user_to_join-invitations :
      (o : Option User) → (user_to_join new_user_id params email o w).1.invitations ≡ w.invitations
  unfolding user_to_join
  user_to_join-invitations none = ground arith
  user_to_join-invitations (some v) = ground arith

  user_to_join-email :
      (v : User)
      → (user_to_join new_user_id params email (find_user_by_email email w) w).0 ≡ ok v
      → v.email ≡ email
  unfolding user_to_join find_user_by_email
  user_to_join-email v e = elim (Option-cases (find_user_by_email email w)) [
    | inl absent ↦ ground arith
    | inr (x, found) ↦ ground (
      arith,
      db.find_first_sound users_model (λ r. r.email == email) w.users x,
      eq_iff x.email email,
    )
  ]

close_row-IsPlain : IsPlain invitations_model close_row
close_row-IsPlain = record { id = λ r. refl; clash_left = λ r s. refl; clash_right = λ r s. refl }

module _ {db : Prisma} (rt : Runtime) (now : ℕ) (new_user_id member_id : String)
    (params : AcceptParams) (w w' : World db) (u : User) (m : OrganizationMember)
    (success : accept_invitation_transaction rt now new_user_id member_id params w
      ≡ (ok (u, m), w')) where
  abbrev pub chosen : Result User × World db
  chosen =
      user_to_join new_user_id params (normalized rt params.email)
        (find_user_by_email (normalized rt params.email) w) w

  pub reaches_join :
      (i : OrganizationInvitation) × (v : User) × (find_invitation_by_id params.invitation_id w
        ≡ some i)
      × (i.status ≡ pending)
      × (now ≤ i.expires_at)
      × (chosen.0 ≡ ok v)
      × (join now member_id params (normalized rt params.email) i v chosen.1 ≡ (ok (u, m), w'))
  unfolding accept_invitation_transaction
  reaches_join = elim (Option-cases (find_invitation_by_id params.invitation_id w)) [
    | inl absent ↦ ground arith
    | inr (i, found) ↦
        (i, value_or u chosen.0, found, ground arith, ground arith, ground arith, ground arith)
  ]

  -- The rows of invitations after the transaction, by those before it.
  pub invitation_after :
      (i : OrganizationInvitation) (k : String)
      → find_invitation_by_id params.invitation_id w ≡ some i
      → find_invitation_by_id k w'
        ≡ map_option
            (λ r.
              if is_other (normalized rt params.email) params.invitation_id r
              then close_row r
              else r)
            (if params.invitation_id == k
              then map_option (accept_row now) (find_invitation_by_id k w)
              else find_invitation_by_id k w)
  unfolding find_invitation_by_id
  invitation_after i k found =
      let (j, v, same, _, _, _, joined) = reaches_join in
      let (_, marked, after, _, _) =
        join_tables now member_id params (normalized rt params.email) j v u m chosen.1 w' joined in
      let key = db.id-find_id invitations_model params.invitation_id w.invitations j same in
      ground (
        arith,
        key,
        user_to_join-invitations new_user_id params (normalized rt params.email) w
            (find_user_by_email (normalized rt params.email) w),
        db.find_id-update invitations_model j.id (accept_row now) chosen.1.invitations
            (written chosen.1.invitations (mark now j chosen.1)) k (λ r. refl) marked,
        db.find_id-update_many invitations_model (is_other (normalized rt params.email) j.id)
            close_row (written chosen.1.invitations (mark now j chosen.1)) k close_row-IsPlain,
      )

  pub membership_created :
      (db.create members_model m w.members ≡ done w'.members)
      × (m ≡ new_member member_id params u)
      × (u.email ≡ normalized rt params.email)
  membership_created =
      let (j, v, _, _, _, user, joined) = reaches_join in
      let (created, _, _, same_user, same_member) =
        join_tables now member_id params (normalized rt params.email) j v u m chosen.1 w' joined in
      ground (
        arith,
        user_to_join-members new_user_id params (normalized rt params.email) w
            (find_user_by_email (normalized rt params.email) w),
        user_to_join-email new_user_id params (normalized rt params.email) w v user,
      )
