-- ===== src/Auth/Revoked.antt =====
-- auth.service.ts: what a change of the password and the two steps of a login do to the sessions.
use multi_tenant_project_man.Base.{
  ℕ, String, true, false, Option, none, some, ◌==◌, ◌≡◌, refl, eq_iff, arith, is_some, is_value, ap,
  or_default,
}
use multi_tenant_project_man.Base.Error.{app, unauthorized}
use multi_tenant_project_man.Base.Monad.{ok, err}
use multi_tenant_project_man.Prisma.{Prisma}
use multi_tenant_project_man.Schema.{User, RefreshSession, users_model, sessions_model}
use multi_tenant_project_man.World.{Runtime, World, Claims}
use multi_tenant_project_man.Tokens.{seconds, hash_token, verify_refresh_token}
use multi_tenant_project_man.Sessions.{
  AuthContext, find_user_by_id, find_refresh_session_by_hash, create_refresh_session, update_user,
  update_password, update_totp_secret, revoke_all_user_sessions,
}
use multi_tenant_project_man.Organizations.Repository.{find_user_by_email}
use multi_tenant_project_man.Auth.{
  TokenDraws, TokenPair, logged_in, requires_mfa, new_session, token_pair, mfa_token, accepts_code,
  start_session, complete_login, login, refresh, change_password, setup_2fa, verify_and_enable_2fa,
  find_protected, verify_mfa_login,
}
use multi_tenant_project_man.Auth.Rotation.{revoke_row, revoke_row-IsPlain, live_of}

module _ {db : Prisma} (rt : Runtime) (now : ℕ)
    (salt user_id current_password new_password : String) (jti : Option String) (w w' : World db)
    (success : change_password rt now salt user_id current_password new_password jti w
      ≡ (ok tt, w')) where
  changed_sessions :
      w'.sessions ≡ db.update_many sessions_model (live_of user_id) (revoke_row now) w.sessions
  unfolding change_password update_password update_user revoke_all_user_sessions
  changed_sessions = ground arith

  all_revoked :
      (k : String) (r : RefreshSession)
      → db.find_id sessions_model k w'.sessions ≡ some r
      → r.user_id ≡ user_id
      → is_some r.revoked_at ≡ true
  all_revoked k r row same = ground (
    arith,
    changed_sessions,
    db.find_id-update_many sessions_model (live_of user_id) (revoke_row now) w.sessions k
        (revoke_row-IsPlain now),
    eq_iff r.user_id user_id,
  )

  -- After a change of the password that succeeds, a refresh with the token of any session of
  -- that user, whose signature is good, is refused with TOKEN_REVOKED.
  pub signs_out :
      (now' : ℕ) (draws : TokenDraws) (token : String) (context : AuthContext) (c : Claims)
      (r : RefreshSession)
      → verify_refresh_token rt now' token ≡ some c
      → find_refresh_session_by_hash (hash_token rt token) w' ≡ some r
      → r.user_id ≡ user_id
      → (refresh rt now' draws token context w').0 ≡ err (app (unauthorized "TOKEN_REVOKED"))
  unfolding refresh find_refresh_session_by_hash
  signs_out now' draws token context c r genuine found same = ground (
    arith,
    all_revoked r.id r,
    db.find_first_sound sessions_model (λ s. s.token_hash == hash_token rt token) w'.sessions r,
  )

  -- When a change of the password succeeds for a user who exists, the current password was
  -- right, and the user's row differs from before in the hash of the new password alone.
  pub replaces_password :
      (u : User)
      → find_user_by_id user_id w ≡ some u
      → (rt.bcrypt_compare current_password u.password_hash ≡ true)
        × (find_user_by_id user_id w'
            ≡ some (record u { password_hash = rt.bcrypt_hash salt new_password }))
  unfolding change_password find_user_by_id update_password update_user revoke_all_user_sessions
  replaces_password u found = ground (
    arith,
    db.find_id-update users_model user_id
        (λ v. record v { password_hash = rt.bcrypt_hash salt new_password }) w.users w'.users
        user_id (λ v. refl),
    eq_iff user_id user_id,
  )

is_value_eq : (o : Option String) (s : String) → is_value o s ≡ true → o ≡ some s
is_value_eq none s h = cc
is_value_eq (some x) s h = ap some ((eq_iff x s).0 h)

module _ {db : Prisma} (rt : Runtime) (now : ℕ) (draws : TokenDraws) (context : AuthContext)
    (w w' : World db) where
  start_session_ok :
      (u : User) (p : TokenPair)
      → start_session rt now draws context u w ≡ (ok p, w')
      → (p ≡ token_pair rt now draws u)
        × (db.find_id sessions_model draws.session_id w'.sessions
            ≡ some (new_session rt now draws context u))
  unfolding start_session create_refresh_session
  start_session_ok u p success = ground (
    arith,
    db.find_id-create sessions_model (new_session rt now draws context u) w.sessions w'.sessions
        draws.session_id,
    eq_iff draws.session_id draws.session_id,
  )

  -- When a login ends with tokens, the password of the user with the address was right, the
  -- user's second factor is off, and the new session is stored.
  pub login_passes :
      (email password : String) (u : User) (p : TokenPair)
      → find_user_by_email (rt.to_lower_case (rt.trim email)) w ≡ some u
      → login rt now draws email password context w ≡ (ok (logged_in p), w')
      → (rt.bcrypt_compare password u.password_hash ≡ true)
        × (u.totp_enabled ≡ false)
        × (p.user ≡ u)
        × (db.find_id sessions_model draws.session_id w'.sessions
            ≡ some (new_session rt now draws context u))
  unfolding login complete_login
  login_passes email password u p found success = ground (arith, start_session_ok u p)

  -- A login with the right password of a user whose second factor is on ends with a challenge,
  -- and writes nothing.
  pub login_withholds :
      (email password : String) (u : User)
      → find_user_by_email (rt.to_lower_case (rt.trim email)) w ≡ some u
      → rt.bcrypt_compare password u.password_hash ≡ true
      → u.totp_enabled ≡ true
      → login rt now draws email password context w ≡ (ok (requires_mfa (mfa_token rt now u.id)), w)
  unfolding login complete_login
  login_withholds email password u found right on = ground arith

  -- When the second step of a login ends with tokens, the challenge had the purpose of one,
  -- its user's second factor is on, the code was accepted for the user's secret, and the new
  -- session is stored.
  pub verify_mfa_passes :
      (mfa code : String) (c : Claims) (p : TokenPair)
      → rt.verify rt.jwt_secret (seconds now) mfa ≡ some c
      → verify_mfa_login rt now draws mfa code context w ≡ (ok p, w')
      → (c.purpose ≡ some "mfa_challenge")
        × (find_user_by_id (or_default c.user_id "") w ≡ some p.user)
        × (p.user.totp_enabled ≡ true)
        × (accepts_code rt now p.user.totp_secret code ≡ true)
        × (db.find_id sessions_model draws.session_id w'.sessions
            ≡ some (new_session rt now draws context p.user))
  unfolding verify_mfa_login find_protected find_user_by_id
  verify_mfa_passes mfa code c p genuine success =
      let purpose : c.purpose ≡ some "mfa_challenge" =
        ground (arith, is_value_eq c.purpose "mfa_challenge") in
      ground (arith, start_session_ok p.user p, purpose)

module _ {db : Prisma} (rt : Runtime) (w w' : World db) where
  -- When the second factor is switched on for a user who exists, the code was accepted for the
  -- secret of the user, and nothing else of the user is changed.
  pub enable_checks :
      (now : ℕ) (user_id code : String) (u : User)
      → find_user_by_id user_id w ≡ some u
      → verify_and_enable_2fa rt now user_id code w ≡ (ok tt, w')
      → (accepts_code rt now u.totp_secret code ≡ true)
        × (find_user_by_id user_id w' ≡ some (record u { totp_enabled = true }))
  unfolding verify_and_enable_2fa find_user_by_id update_totp_secret update_user
  enable_checks now user_id code u found success = ground (
    arith,
    db.find_id-update users_model user_id
        (λ v. record v { totp_secret = u.totp_secret; totp_enabled = true }) w.users w'.users
        user_id (λ v. refl),
    eq_iff user_id user_id,
  )

  -- A setup of the second factor that succeeds switches it off, also where it was on, and
  -- replaces the secret; no code and no password is asked for.
  pub setup_switches_off :
      (secret user_id : String) (u : User)
      → find_user_by_id user_id w ≡ some u
      → setup_2fa rt secret user_id w ≡ (ok secret, w')
      → find_user_by_id user_id w'
        ≡ some (record u { totp_secret = some secret; totp_enabled = false })
  unfolding setup_2fa find_user_by_id update_totp_secret update_user
  setup_switches_off secret user_id u found success = ground (
    arith,
    db.find_id-update users_model user_id
        (λ v. record v { totp_secret = some secret; totp_enabled = false }) w.users w'.users user_id
        (λ v. refl),
    eq_iff user_id user_id,
  )
