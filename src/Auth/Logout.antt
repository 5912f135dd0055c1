-- ===== src/Auth/Logout.antt =====
-- auth.service.ts: `logout`, which revokes the access token and the refresh session.
use multi_tenant_project_man.Base.{
  ℕ, zero, String, Bool, true, Option, none, some, ◌-◌, ◌==◌, ◌&&◌, not, ◌≡◌, ◌≢◌, ◌∷◌, [], ◌++◌,
  eq_iff, arith, is_some, present, or_default, ltb, leb, if◌then◌else◌,
}
use multi_tenant_project_man.Base.Error.{app, unauthorized}
use multi_tenant_project_man.Base.Monad.{Action, pure, ◌>>◌, ok, err}
use multi_tenant_project_man.Prisma.{Prisma}
use multi_tenant_project_man.Schema.{RefreshSession, sessions_model}
use multi_tenant_project_man.World.{Runtime, World, Claims, call, revoke_token}
use multi_tenant_project_man.Tokens.{hash_token, seconds, verify_refresh_token}
use multi_tenant_project_man.Sessions.{
  AuthContext, find_refresh_session_by_hash, revoke_refresh_session_by_hash,
}
use multi_tenant_project_man.Auth.{TokenDraws, refresh}
use multi_tenant_project_man.Auth.Rotation.{revoke_row, revoke_row-IsPlain}

-- The input; a call with a text alone has that refresh token and perhaps a `jti`.
pub record LogoutInput : Type 0 where
  pub raw_refresh_token : Option String
  pub access_token : Option String
  pub jti : Option String

-- `payload.exp ? Math.max(1, payload.exp - now) : 900`
abbrev pub remaining_life : ℕ → Option ℕ → ℕ
remaining_life now none = 900
remaining_life now (some zero) = 900
remaining_life now (some exp) = if leb (exp - now) 1 then 1 else exp - now

-- The sessions that `revokeRefreshSessionByHash` marks.
abbrev of_token : Runtime → String → RefreshSession → Bool
of_token rt token s = s.token_hash == hash_token rt token && not (is_some s.revoked_at)

module _ {db : Prisma} (rt : Runtime) where
  -- A token with a good signature.
  unfoldable pub revoke_verified : ℕ → Claims → Action (World db) (Unit {0})
  revoke_verified now payload =
      if present payload.jti
      then call (revoke_token (or_default payload.jti "") (remaining_life now payload.exp))
      else pure tt

  -- A token that does not verify is read without its signature, and revoked if it has not expired.
  unfoldable pub revoke_decoded : ℕ → Option Claims → Action (World db) (Unit {0})
  revoke_decoded now none = pure tt
  revoke_decoded now (some decoded) =
      if present decoded.jti && ltb now (or_default decoded.exp 0)
      then call (revoke_token (or_default decoded.jti "") (or_default decoded.exp 0 - now))
      else pure tt

  unfoldable pub revoke_access :
      ℕ → (access_token jti : Option String) → Action (World db) (Unit {0})
  unfolding revoke_verified revoke_decoded
  revoke_access now access_token jti =
      if present access_token
      then elim (rt.verify rt.jwt_secret (seconds now) (or_default access_token "")) [
        | none ↦ revoke_decoded (seconds now) (rt.decode (or_default access_token ""))
        | some payload ↦ revoke_verified (seconds now) payload
      ]
      else if present jti
      then call (revoke_token (or_default jti "") 900)
      else pure tt

  unfoldable pub logout : ℕ → LogoutInput → Action (World db) (Unit {0})
  unfolding revoke_access revoke_refresh_session_by_hash
  logout now input = do
    revoke_access now input.access_token input.jti
    if present input.raw_refresh_token
        then revoke_refresh_session_by_hash now
            (hash_token rt (or_default input.raw_refresh_token ""))
        else pure tt

  revoke_access_keeps :
      (now : ℕ) (access_token jti : Option String) (w : World db)
      → ((revoke_access now access_token jti w).0 ≡ ok tt)
        × ((revoke_access now access_token jti w).1.sessions ≡ w.sessions)
  unfolding revoke_access revoke_verified revoke_decoded
  revoke_access_keeps now access_token jti w = (ground arith, ground arith)

  module _ (now : ℕ) (input : LogoutInput) (w : World db) (token : String)
      (given : input.raw_refresh_token ≡ some token) (nonempty : token ≢ "") where
    abbrev after : World db
    after = (logout now input w).1

    after_sessions :
        after.sessions
        ≡ db.update_many sessions_model (of_token rt token) (revoke_row now) w.sessions
    unfolding logout revoke_refresh_session_by_hash
    after_sessions =
        ground (arith, revoke_access_keeps now input.access_token input.jti w, eq_iff token "")

    -- After a logout with a refresh token that is not empty, a refresh with that token, where
    -- its session is found and its signature is good, is refused with TOKEN_REVOKED.
    pub logout_ends :
        (now' : ℕ) (draws : TokenDraws) (context : AuthContext) (c : Claims) (r : RefreshSession)
        → verify_refresh_token rt now' token ≡ some c
        → find_refresh_session_by_hash (hash_token rt token) after ≡ some r
        → (refresh rt now' draws token context after).0 ≡ err (app (unauthorized "TOKEN_REVOKED"))
    unfolding refresh find_refresh_session_by_hash
    logout_ends now' draws context c r genuine found =
        let (holds, row) =
          db.find_first_sound sessions_model (λ s. s.token_hash == hash_token rt token)
            after.sessions r found in
        let revoked : is_some r.revoked_at ≡ true = ground (
          arith,
          after_sessions,
          holds,
          row,
          db.find_id-update_many sessions_model (of_token rt token) (revoke_row now) w.sessions r.id
              (revoke_row-IsPlain now),
        ) in
        ground arith

    -- A logout with a refresh token that is not empty leaves every session with another token
    -- hash as it was.
    pub logout_keeps_others :
        (k : String) (r : RefreshSession)
        → db.find_id sessions_model k w.sessions ≡ some r
        → r.token_hash ≢ hash_token rt token
        → db.find_id sessions_model k after.sessions ≡ some r
    logout_keeps_others k r row other = ground (
      arith,
      after_sessions,
      db.find_id-update_many sessions_model (of_token rt token) (revoke_row now) w.sessions k
          (revoke_row-IsPlain now),
      eq_iff r.token_hash (hash_token rt token),
    )

  -- A logout with an access token that verifies and has an id revokes that id for the rest of
  -- the token's life, for one second at least and for 900 if it has no end, and makes no other
  -- call.
  pub logout_denies :
      (now : ℕ) (input : LogoutInput) (w : World db) (token jti : String) (c : Claims)
      → input.access_token ≡ some token
      → token ≢ ""
      → rt.verify rt.jwt_secret (seconds now) token ≡ some c
      → c.jti ≡ some jti
      → jti ≢ ""
      → (logout now input w).1.calls
        ≡ w.calls ++ revoke_token jti (remaining_life (seconds now) c.exp) ∷ []
  unfolding logout revoke_access revoke_verified revoke_refresh_session_by_hash
  logout_denies now input w token jti c given nonempty genuine named full =
      ground (arith, eq_iff token "", eq_iff jti "")
