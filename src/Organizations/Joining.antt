-- ===== src/Organizations/Joining.antt =====
-- What an accepted invitation leaves behind, and that it is good for one acceptance.
use multi_tenant_project_man.Base.{
  ℕ, String, false, Option, none, some, ◌==◌, ◌≡◌, ◌≢◌, ◌≤◌, refl, inl, inr, eq_iff, arith,
  map_option, Option-cases, if◌then◌else◌,
}
use multi_tenant_project_man.Base.Error.{app, bad_request}
use multi_tenant_project_man.Base.Monad.{Result, ok, err}
use multi_tenant_project_man.Prisma.{Prisma}
use multi_tenant_project_man.Schema.{
  pending, User, OrganizationMember, OrganizationInvitation, invitations_model, members_model,
}
use multi_tenant_project_man.World.{Runtime, World}
use multi_tenant_project_man.Tokens.{hash_token}
use multi_tenant_project_man.Sessions.{AuthContext}
use multi_tenant_project_man.Organizations.Repository.{
  find_user_by_email, find_invitation_by_id, find_invitation_by_token_hash,
}
use multi_tenant_project_man.Organizations.Transactions.{
  AcceptParams, normalized, accept_invitation_transaction,
}
use multi_tenant_project_man.Organizations.Invitations.{shown_name}
use multi_tenant_project_man.Organizations.Acceptance.{
  reaches_join, invitation_after, membership_created, accept_row, close_row, is_other,
}
use multi_tenant_project_man.Organizations.Accept.{
  Caller, AcceptInput, Draws, Accepted, check_recipient, open_session, admit, accept_invitation,
}

module _ {db : Prisma} (rt : Runtime) where
  check_recipient_keeps :
      (salt email : String) (input : AcceptInput) (caller : Option Caller) (o : Option User)
      (w : World db)
      → (check_recipient rt salt email input caller o w).1 ≡ w
  unfolding check_recipient
  check_recipient_keeps salt email input none (some u) w = refl
  check_recipient_keeps salt email input (some c) (some u) w = ground arith
  check_recipient_keeps salt email input c none w = ground arith

  open_session_keeps :
      (now : ℕ) (draws : Draws) (context : AuthContext) (j : User × OrganizationMember)
      (w : World db)
      → ((open_session rt now draws context j w).1.members ≡ w.members)
        × ((open_session rt now draws context j w).1.invitations ≡ w.invitations)
        × ((a : Accepted)
            → (open_session rt now draws context j w).0 ≡ ok a
            → (a.user ≡ j.0) × (a.member ≡ j.1))
  unfolding open_session
  open_session_keeps now draws context j w = (ground arith, ground arith, λ a e. ground arith)

abbrev value_or : {A : Type 0} → A → Result A → A
value_or d (ok b) = b
value_or d (err e) = d

module _ {db : Prisma} (rt : Runtime) (now : ℕ) (draws : Draws) (input : AcceptInput)
    (context : AuthContext) (w w' : World db) (a : Accepted) where
  abbrev params : OrganizationInvitation → Option String → AcceptParams
  params i password_hash = record {
    invitation_id = i.id;
    organization_id = i.organization_id;
    email = normalized rt i.email;
    name = some (shown_name rt input.name (normalized rt i.email));
    password_hash = password_hash;
    role = i.role;
  }

  abbrev tx : OrganizationInvitation → Option String → Result (User × OrganizationMember) × World db
  tx i p = accept_invitation_transaction rt now draws.user_id draws.member_id (params i p) w

  admit_ok :
      (i : OrganizationInvitation) (p : Option String)
      → admit rt now draws input context i p w ≡ (ok a, w')
      → (tx i p ≡ (ok (a.user, a.member), (tx i p).1))
        × (w'.members ≡ (tx i p).1.members)
        × (w'.invitations ≡ (tx i p).1.invitations)
  unfolding admit
  admit_ok i p e =
      let (kept_members, kept_invitations, same) =
        open_session_keeps rt now draws context (value_or (a.user, a.member) (tx i p).0)
          (tx i p).1 in
      (ground (arith, same a), ground (arith, kept_members), ground (arith, kept_invitations))

  abbrev recipient : Option Caller → OrganizationInvitation → Result (Option String) × World db
  recipient caller i =
      check_recipient rt draws.salt (normalized rt i.email) input caller
        (find_user_by_email (normalized rt i.email) w) w

  module _ (raw_token : String) (caller : Option Caller)
      (success : accept_invitation rt now draws raw_token input context caller w ≡ (ok a, w')) where
    accept_absent : find_invitation_by_token_hash (hash_token rt raw_token) w ≢ none
    unfolding accept_invitation
    accept_absent absent = ground arith

    accept_token : (raw_token == "") ≡ false
    unfolding accept_invitation
    accept_token = ground arith

    accept_found :
        (i : OrganizationInvitation)
        → find_invitation_by_token_hash (hash_token rt raw_token) w ≡ some i
        → ((recipient caller i).0 ≡ ok (value_or none (recipient caller i).0))
          × (admit rt now draws input context i (value_or none (recipient caller i).0) w
              ≡ (ok a, w'))
    unfolding accept_invitation
    accept_found i found =
        let keeps =
          check_recipient_keeps rt draws.salt (normalized rt i.email) input caller
            (find_user_by_email (normalized rt i.email) w) w in
        ground (arith, keeps)

    invited :
        (i : OrganizationInvitation) × (p : Option String) × (find_invitation_by_token_hash
            (hash_token rt raw_token)
            w
          ≡ some i)
        × (tx i p ≡ (ok (a.user, a.member), (tx i p).1))
        × (w'.members ≡ (tx i p).1.members)
        × (w'.invitations ≡ (tx i p).1.invitations)
    invited = elim (Option-cases (find_invitation_by_token_hash (hash_token rt raw_token) w)) [
      | inl absent ↦ absurd (accept_absent absent)
      | inr (i, found) ↦
          let (_, admitted) = accept_found i found in
          let p = value_or none (recipient caller i).0 in
          let (done, members, invitations) = admit_ok i p admitted in
          (i, p, found, done, members, invitations)
    ]

    by_id :
        (i : OrganizationInvitation)
        → find_invitation_by_token_hash (hash_token rt raw_token) w ≡ some i
        → (find_invitation_by_id i.id w ≡ some i) × (i.token_hash ≡ hash_token rt raw_token)
    unfolding find_invitation_by_token_hash find_invitation_by_id
    by_id i found =
        let (holds, row) = db.find_first_sound invitations_model _ w.invitations i found in
        (row, (eq_iff _ _).0 holds)

    -- When an acceptance succeeds, the invitation that was found by the hash of the link was
    -- pending and not expired, and the new member who is stored has the organization and the
    -- role of the invitation and is the user with its address.
    pub joins :
        (i : OrganizationInvitation)
        → find_invitation_by_token_hash (hash_token rt raw_token) w ≡ some i
        → (i.status ≡ pending)
          × (now ≤ i.expires_at)
          × (a.member.organization_id ≡ i.organization_id)
          × (a.member.role ≡ i.role)
          × (a.member.user_id ≡ a.user.id)
          × (a.user.email ≡ normalized rt (normalized rt i.email))
          × (db.find_id members_model a.member.id w'.members ≡ some a.member)
    joins i found =
        let (j, p, same, done, members, _) = invited in
        let (_, _, by_id', status, in_time, _, _) =
          reaches_join rt now draws.user_id draws.member_id (params j p) w _ a.user a.member done in
        let (created, member, email) =
          membership_created rt now draws.user_id draws.member_id (params j p) w _ a.user a.member
            done in
        let stored =
          db.find_id-create members_model a.member w.members (tx j p).1.members a.member.id
            created in
        ground (arith, (by_id i found).0, stored, eq_iff a.member.id a.member.id)

    -- When an acceptance succeeds, its user was a member of no organization before.
    pub first_membership :
        (k : String) (n : OrganizationMember)
        → db.find_id members_model k w.members ≡ some n
        → n.user_id ≢ a.user.id
    first_membership k n kept same =
        let (j, p, _, done, _, _) = invited in
        let t = (tx j p).1.members in
        let (created, member, _) =
          membership_created rt now draws.user_id draws.member_id (params j p) w _ a.user a.member
            done in
        ground (
          arith,
          db.create_fresh members_model a.member w.members t created,
          db.find_id-create members_model a.member w.members t k created,
          db.find_id-create members_model a.member w.members t a.member.id created,
          db.distinct members_model t a.member.id k a.member n,
          db.id-find_id members_model k w.members n kept,
          eq_iff a.member.id k,
          eq_iff a.member.id a.member.id,
          eq_iff a.member.user_id n.user_id,
        )

    row_after :
        (i : OrganizationInvitation) (k : String)
        → find_invitation_by_token_hash (hash_token rt raw_token) w ≡ some i
        → db.find_id invitations_model k w'.invitations
          ≡ map_option
              (λ r.
                if is_other (normalized rt (normalized rt i.email)) i.id r then close_row r else r)
              (if i.id == k
                then map_option (accept_row now) (find_invitation_by_id k w)
                else find_invitation_by_id k w)
    unfolding find_invitation_by_id
    row_after i k found =
        let (j, p, same, done, _, invitations) = invited in
        ground (
          arith,
          (by_id i found).0,
          invitation_after rt now draws.user_id draws.member_id (params i p) w (tx i p).1 a.user
              a.member (ground arith) i k,
        )

    found_again :
        (i : OrganizationInvitation) (v : World db)
        → find_invitation_by_token_hash (hash_token rt raw_token) w ≡ some i
        → find_invitation_by_id i.id v ≡ find_invitation_by_id i.id w'
        → find_invitation_by_token_hash (hash_token rt raw_token) v ≡ some (accept_row now i)
    unfolding find_invitation_by_token_hash find_invitation_by_id
    found_again i v found kept =
        let hash = hash_token rt raw_token in
        let (row, same_hash) = by_id i found in
        let marked : db.find_id invitations_model i.id v.invitations ≡ some (accept_row now i) =
          ground (arith, kept, row_after i i.id found, row, eq_iff i.id i.id) in
        elim (Option-cases (find_invitation_by_token_hash hash v)) [
          | inl absent ↦ ground (
            arith,
            db.find_first_complete invitations_model (λ r. r.token_hash == hash) v.invitations i.id
                (accept_row now i),
            eq_iff i.token_hash hash,
          )
          | inr (r, still) ↦ ground (
            arith,
            db.find_first_sound invitations_model (λ r. r.token_hash == hash) v.invitations r,
            db.distinct invitations_model v.invitations i.id r.id (accept_row now i) r marked,
            eq_iff i.token_hash r.token_hash,
            eq_iff r.token_hash hash,
            eq_iff i.id r.id,
          )
        ]

    -- After an invitation link was accepted, in every state in which the row of the invitation
    -- is as the acceptance left it, another acceptance with the same link, by whomever and
    -- with whatever input, is refused with INVITATION_ALREADY_ACCEPTED and changes nothing.
    pub used_once :
        (i : OrganizationInvitation) (v : World db) (now' : ℕ) (draws' : Draws)
        (input' : AcceptInput) (context' : AuthContext) (caller' : Option Caller)
        → find_invitation_by_token_hash (hash_token rt raw_token) w ≡ some i
        → find_invitation_by_id i.id v ≡ find_invitation_by_id i.id w'
        → accept_invitation rt now' draws' raw_token input' context' caller' v
          ≡ (err (app (bad_request "INVITATION_ALREADY_ACCEPTED")), v)
    unfolding accept_invitation
    used_once i v now' draws' input' context' caller' found kept =
        ground (arith, found_again i v found kept, accept_token)

    -- After an acceptance, no invitation to the address of the accepted one is pending, in any
    -- organization.
    pub closes_others :
        (i j : OrganizationInvitation) (k : String)
        → find_invitation_by_token_hash (hash_token rt raw_token) w ≡ some i
        → db.find_id invitations_model k w'.invitations ≡ some j
        → j.email ≡ normalized rt (normalized rt i.email)
        → j.status ≢ pending
    unfolding find_invitation_by_id
    closes_others i j k found row address open_yet =
        elim (Option-cases (find_invitation_by_id k w)) [
          | inl absent ↦ ground (arith, row_after i k found)
          | inr (r, before) ↦ ground (
            arith,
            row_after i k found,
            db.id-find_id invitations_model k w.invitations r before,
            eq_iff i.id k,
            eq_iff k i.id,
            eq_iff j.email (normalized rt (normalized rt i.email)),
          )
        ]
