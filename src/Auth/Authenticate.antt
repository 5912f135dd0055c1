-- ===== src/Auth/Authenticate.antt =====
-- middlewares/auth.middleware.ts and middlewares/authorization.middleware.ts: who is let through to
-- a handler.
use multi_tenant_project_man.Base.{
  ℕ, String, Bool, true, false, Option, none, some, List, [], ◌∷◌, ◌==◌, ◌&&◌, not, ◌≡◌, ◌≢◌,
  eq_iff, arith, any, present, or_default, if◌then◌else◌,
}
use multi_tenant_project_man.Base.Error.{
  app, unauthorized, bad_request, forbidden, service_unavailable,
}
use multi_tenant_project_man.Base.Monad.{Result, ok, err}
use multi_tenant_project_man.Prisma.{Prisma}
use multi_tenant_project_man.Schema.{
  OrganizationRole, owner, admin, member, viewer, same_role, OrganizationMember, members_model,
}
use multi_tenant_project_man.World.{Runtime, World, Claims}
use multi_tenant_project_man.Tokens.{seconds, no_claims, verify_access_token}
use multi_tenant_project_man.Organizations.Repository.{find_member}
use multi_tenant_project_man.Auth.{mfa_token}

-- `req.user` and `req.jti`; a claim that the token lacks is undefined.
pub record AuthUser : Type 0 where
  pub id : Option String
  pub email : Option String
  pub jti : Option String

-- The token of `Authorization: Bearer <token>`.
unfoldable pub bearer_token : Runtime → String → Option String
bearer_token rt header = elim (rt.split_spaces (rt.trim header)) [
  | [] ↦ none
  | scheme ∷ rest ↦ elim rest [
    | [] ↦ none
    | token ∷ _ ↦ if scheme == "Bearer" && not (token == "") then some token else none
  ]
]

abbrev user_of : Claims → AuthUser
user_of payload = record { id = payload.user_id; email = payload.email; jti = payload.jti }

-- `payload.jti && await isRevokedDistributed(payload.jti)`, where the check may fail.
abbrev revocation : (String → Option Bool) → Option String → Option Bool
revocation is_revoked none = some false
revocation is_revoked (some jti) = if jti == "" then some false else is_revoked jti

unfoldable pub check_revoked : (String → Option Bool) → Claims → Result AuthUser
check_revoked is_revoked payload = elim (revocation is_revoked payload.jti) [
  | none ↦ err (app (service_unavailable "AUTH_SERVICE_UNAVAILABLE"))
  | some revoked ↦
      if revoked then err (app (unauthorized "TOKEN_REVOKED")) else ok (user_of payload)
]

-- `authenticate`: the user that the handler sees, or the error that it is called with instead.
unfoldable pub authenticate :
    Runtime → ℕ → (String → Option Bool) → (header : Option String) → Result AuthUser
unfolding bearer_token check_revoked verify_access_token
authenticate rt now is_revoked header =
    if not (present header)
    then err (app (unauthorized "AUTH_HEADER_REQUIRED"))
    else elim (bearer_token rt (or_default header "")) [
      | none ↦ err (app (unauthorized "MALFORMED_AUTH_HEADER"))
      | some token ↦ elim (verify_access_token rt now token) [
        | none ↦
            if rt.is_expired rt.jwt_secret (seconds now) token
            then err (app (unauthorized "TOKEN_EXPIRED"))
            else err (app (unauthorized "INVALID_ACCESS_TOKEN"))
        | some payload ↦ check_revoked is_revoked payload
      ]
    ]

abbrev user_or_none : Result AuthUser → Option AuthUser
user_or_none (ok user) = some user
user_or_none (err e) = none

-- `optionalAuthenticate`: the same steps, where every failure lets an anonymous call through.
unfoldable pub optional_authenticate :
    Runtime → ℕ → (String → Option Bool) → (header : Option String) → Option AuthUser
unfolding bearer_token check_revoked verify_access_token
optional_authenticate rt now is_revoked header =
    if not (present header) then none else elim (bearer_token rt (or_default header "")) [
      | none ↦ none
      | some token ↦ elim (verify_access_token rt now token) [
        | none ↦ none
        | some payload ↦ user_or_none (check_revoked is_revoked payload)
      ]
    ]

-- `roles.includes(role)`
abbrev pub includes : List OrganizationRole → OrganizationRole → Bool
includes roles role = any (λ r. same_role r role) roles

-- The steps 4 to 6 of `authorizeOrgRole`.
unfoldable pub check_role :
    List OrganizationRole → Option OrganizationMember → Result OrganizationMember
check_role roles none = err (app (forbidden "NOT_AN_ORGANIZATION_MEMBER"))
check_role roles (some m) =
    if includes roles m.role then ok m else err (app (forbidden "INSUFFICIENT_PERMISSIONS"))

module _ {db : Prisma} where
  -- `authorizeOrgRole`, for the organization id that the request has: `req.membership`, or the error.
  unfoldable pub authorize_org_role :
      List OrganizationRole
      → (user_id organization_id : Option String) → World db
      → Result OrganizationMember
  unfolding check_role find_member
  authorize_org_role roles user_id organization_id w =
      if not (present user_id)
      then err (app (unauthorized "AUTHENTICATION_REQUIRED"))
      else if not (present organization_id)
      then err (app (bad_request "ORG_ID_REQUIRED"))
      else check_role roles (find_member (or_default organization_id "") (or_default user_id "") w)

  -- `requireOrgMember`
  unfoldable pub require_org_member :
      (user_id organization_id : Option String) → World db → Result OrganizationMember
  unfolding authorize_org_role
  require_org_member = authorize_org_role (owner ∷ admin ∷ member ∷ viewer ∷ [])

  -- When a request is let through to an organization's handler, its user is a member of that
  -- organization, with one of the roles that the handler allows.
  pub authorized :
      (roles : List OrganizationRole) (user_id organization_id : String) (w : World db)
      (m : OrganizationMember)
      → authorize_org_role roles (some user_id) (some organization_id) w ≡ ok m
      → (m.organization_id ≡ organization_id)
        × (m.user_id ≡ user_id)
        × (includes roles m.role ≡ true)
        × (db.find_id members_model m.id w.members ≡ some m)
  unfolding authorize_org_role check_role find_member
  authorized roles user_id organization_id w m passed = ground (
    arith,
    db.find_first_sound members_model
        (λ r. r.organization_id == organization_id && r.user_id == user_id) w.members m,
    eq_iff m.organization_id organization_id,
    eq_iff m.user_id user_id,
  )

module _ (rt : Runtime) (now : ℕ) (is_revoked : String → Option Bool) where
  pub optional_authenticate_lem :
      (header : Option String)
      → optional_authenticate rt now is_revoked header
        ≡ user_or_none (authenticate rt now is_revoked header)
  unfolding authenticate optional_authenticate
  optional_authenticate_lem header = ground arith

  -- When a request is let through with a token that has an id, the denylist was asked about
  -- that id and answered that it is not revoked.
  pub admits_unrevoked :
      (header : Option String) (u : AuthUser) (jti : String)
      → authenticate rt now is_revoked header ≡ ok u
      → u.jti ≡ some jti
      → jti ≢ ""
      → is_revoked jti ≡ some false
  unfolding authenticate check_revoked
  admits_unrevoked header u jti passed named given = ground (arith, eq_iff jti "")

  -- The token of an MFA challenge, carried as a bearer token, is let through as its user's,
  -- where it verifies with the claims that it was signed with and the time of its end, which
  -- jsonwebtoken adds.
  pub admits_challenge :
      (now' : ℕ) (header user_id : String) (exp : ℕ)
      → bearer_token rt header ≡ some (mfa_token rt now' user_id)
      → header ≢ ""
      → rt.verify rt.jwt_secret (seconds now) (mfa_token rt now' user_id)
        ≡ some (record no_claims {
          user_id = some user_id;
          purpose = some "mfa_challenge";
          exp = some exp;
        })
      → authenticate rt now is_revoked (some header)
        ≡ ok (record { id = some user_id; email = none; jti = none })
  unfolding authenticate check_revoked verify_access_token
  admits_challenge now' header user_id exp carried given verified = ground (arith, eq_iff header "")
