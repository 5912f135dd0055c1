-- ===== src/Auth.antt =====
-- modules/auth/auth.service.ts: passwords, refresh sessions and the second factor. What a call draws
-- at random, the ids of new rows and the time in milliseconds are its arguments.
pub mod Logout
pub mod Register
pub mod Rotation
pub mod Revoked
pub mod Authenticate
use multi_tenant_project_man.Base.{
  ℕ, String, Bool, true, false, Option, none, some, ◌+◌, ◌==◌, ◌||◌, ◌&&◌, not, present, or_default,
  is_value, is_some, ltb, if◌then◌else◌,
}
use multi_tenant_project_man.Base.Error.{AppError, bad_request, unauthorized}
use multi_tenant_project_man.Base.Monad.{Action, pure, throw, ◌>>=◌, ◌>>◌, gets, require, throw_if}
use multi_tenant_project_man.Prisma.{Prisma}
use multi_tenant_project_man.Schema.{User, RefreshSession, users_model}
use multi_tenant_project_man.World.{Runtime, World, Claims, call, revoke_token}
use multi_tenant_project_man.Tokens.{
  hash_token, no_claims, seconds, generate_access_token, generate_refresh_token,
  verify_refresh_token, refresh_token_expiry,
}
use multi_tenant_project_man.Totp.{verify_totp_code}
use multi_tenant_project_man.Sessions.{
  AuthContext, session_row, find_user_by_id, create_refresh_session, find_refresh_session_by_hash,
  revoke_all_user_sessions, rotate_refresh_session, update_password, update_totp_secret,
}
use multi_tenant_project_man.Organizations.Repository.{find_user_by_email}

-- The ids of a new pair of tokens and of its session.
pub record TokenDraws : Type 0 where
  pub jti : String
  pub token_id : String
  pub session_id : String

-- StandardLoginSuccess and RefreshResult
pub record TokenPair : Type 0 where
  pub access_token : String
  pub refresh_token : String
  pub user : User

pub data LoginResult : Type 0 where
  logged_in : TokenPair → LoginResult
  requires_mfa : (mfa_token : String) → LoginResult

abbrev pub token_pair : Runtime → ℕ → TokenDraws → User → TokenPair
token_pair rt now draws user = record {
  access_token = generate_access_token rt now draws.jti user.id user.email;
  refresh_token = generate_refresh_token rt now draws.token_id user.id;
  user = user;
}

abbrev pub new_session : Runtime → ℕ → TokenDraws → AuthContext → User → RefreshSession
new_session rt now draws context user =
    session_row draws.session_id user.id
      (hash_token rt (token_pair rt now draws user).refresh_token) (refresh_token_expiry now)
      context

-- `jwt.sign({ userId, purpose: 'mfa_challenge' }, env.JWT_SECRET, { expiresIn: '5m' })`
unfoldable pub mfa_token : Runtime → ℕ → String → String
mfa_token rt now user_id =
    rt.sign rt.jwt_secret (seconds now) 300
      (record no_claims { user_id = some user_id; purpose = some "mfa_challenge" })

-- `!secret || !TotpService.verifyCode(secret, code)`
abbrev pub accepts_code : Runtime → ℕ → Option String → String → Bool
accepts_code rt now none code = false
accepts_code rt now (some secret) code = verify_totp_code rt (seconds now) secret code

module _ {db : Prisma} (rt : Runtime) where
  -- The new tokens and their session.
  unfoldable pub start_session : ℕ → TokenDraws → AuthContext → User → Action (World db) TokenPair
  unfolding create_refresh_session
  start_session now draws context user = do
    create_refresh_session (new_session rt now draws context user)
    pure (token_pair rt now draws user)

  -- After the password: a second factor is asked for, or a session is started.
  unfoldable pub complete_login :
      ℕ → TokenDraws → AuthContext → User → Action (World db) LoginResult
  unfolding start_session mfa_token
  complete_login now draws context user =
      if user.totp_enabled
      then pure (requires_mfa (mfa_token rt now user.id))
      else (start_session now draws context user >>= λ tokens. pure (logged_in tokens))

  -- `login`; here the address is trimmed first.
  unfoldable pub login :
      ℕ → TokenDraws → (email password : String) → AuthContext → Action (World db) LoginResult
  unfolding find_user_by_email
  login now draws email password context = do
    found ← gets (find_user_by_email (rt.to_lower_case (rt.trim email)))
    user ← require found (unauthorized "INVALID_CREDENTIALS")
    throw_if (not (rt.bcrypt_compare password user.password_hash))
        (unauthorized "INVALID_CREDENTIALS")
    complete_login now draws context user

  -- A session that was revoked is being replayed: all sessions of its user are revoked.
  unfoldable pub refuse_replay : ℕ → RefreshSession → Action (World db) (Unit {0})
  unfolding revoke_all_user_sessions
  refuse_replay now session =
      if is_some session.revoked_at
      then (revoke_all_user_sessions now session.user_id >> throw (unauthorized "TOKEN_REVOKED"))
      else pure tt

  -- `refresh`; the session's user exists by the foreign key, and is looked up with it.
  unfoldable pub refresh :
      ℕ → TokenDraws → (raw_refresh_token : String) → AuthContext → Action (World db) TokenPair
  unfolding refuse_replay
  refresh now draws raw_refresh_token context = do
    require (verify_refresh_token rt now raw_refresh_token) (unauthorized "INVALID_REFRESH_TOKEN")
    found ← gets (find_refresh_session_by_hash (hash_token rt raw_refresh_token))
    session ← require found (unauthorized "INVALID_REFRESH_TOKEN")
    refuse_replay now session
    throw_if (ltb session.expires_at now) (unauthorized "TOKEN_EXPIRED")
    owner ← gets (find_user_by_id session.user_id)
    user ← require owner (unauthorized "INVALID_REFRESH_TOKEN")
    rotate_refresh_session now session.id (new_session rt now draws context user)
    pure (token_pair rt now draws user)

  -- `changePassword`; without a lifetime, a token is revoked for 900 seconds.
  unfoldable pub change_password :
      ℕ
      → (salt user_id current_password new_password : String) → (current_jti : Option String)
      → Action (World db) (Unit {0})
  unfolding find_user_by_id update_password revoke_all_user_sessions
  change_password now salt user_id current_password new_password current_jti = do
    found ← gets (find_user_by_id user_id)
    user ← require found (unauthorized "USER_NOT_FOUND")
    throw_if (not (rt.bcrypt_compare current_password user.password_hash))
        (unauthorized "INVALID_CURRENT_PASSWORD")
    update_password user_id (rt.bcrypt_hash salt new_password)
    revoke_all_user_sessions now user_id
    if present current_jti then call (revoke_token (or_default current_jti "") 900) else pure tt

  -- `setup2fa`, with the secret that it draws
  unfoldable pub setup_2fa : (secret user_id : String) → Action (World db) String
  unfolding find_user_by_id update_totp_secret
  setup_2fa secret user_id = do
    found ← gets (find_user_by_id user_id)
    require found (unauthorized "USER_NOT_FOUND")
    update_totp_secret user_id (some secret) false
    pure secret

  -- `verifyAndEnable2fa`
  unfoldable pub verify_and_enable_2fa : ℕ → (user_id code : String) → Action (World db) (Unit {0})
  unfolding find_user_by_id update_totp_secret
  verify_and_enable_2fa now user_id code = do
    found ← gets (find_user_by_id user_id)
    user ← require found (bad_request "MFA_NOT_INITIATED")
    throw_if (not (present user.totp_secret)) (bad_request "MFA_NOT_INITIATED")
    throw_if (not (accepts_code rt now user.totp_secret code)) (unauthorized "INVALID_MFA_CODE")
    update_totp_secret user_id user.totp_secret true

  -- The user whose second factor is on.
  unfoldable pub find_protected : String → AppError → Action (World db) User
  unfolding find_user_by_id
  find_protected user_id e = do
    found ← gets (find_user_by_id user_id)
    user ← require found e
    throw_if (not user.totp_enabled || not (present user.totp_secret)) e
    pure user

  -- `disable2fa`
  unfoldable pub disable_2fa : ℕ → (user_id code : String) → Action (World db) (Unit {0})
  unfolding find_protected update_totp_secret
  disable_2fa now user_id code = do
    user ← find_protected user_id (bad_request "MFA_NOT_ACTIVE")
    throw_if (not (accepts_code rt now user.totp_secret code)) (unauthorized "INVALID_MFA_CODE")
    update_totp_secret user_id none false

  -- `verifyMfaLogin`
  unfoldable pub verify_mfa_login :
      ℕ → TokenDraws → (mfa code : String) → AuthContext → Action (World db) TokenPair
  unfolding find_protected start_session
  verify_mfa_login now draws mfa code context = do
    payload ← require (rt.verify rt.jwt_secret (seconds now) mfa) (unauthorized "INVALID_MFA_TOKEN")
    throw_if (not (is_value payload.purpose "mfa_challenge")) (unauthorized "INVALID_MFA_TOKEN")
    user ← find_protected (or_default payload.user_id "") (unauthorized "MFA_NOT_ENABLED")
    throw_if (not (accepts_code rt now user.totp_secret code)) (unauthorized "INVALID_MFA_CODE")
    start_session now draws context user
