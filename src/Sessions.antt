-- ===== src/Sessions.antt =====
-- auth.repository.ts: refresh sessions and the users' credentials.
use multi_tenant_project_man.Base.{ℕ, String, Option, none, some, ◌==◌, ◌&&◌, not, is_some, Bool}
use multi_tenant_project_man.Base.Monad.{Action, pure, ◌>>◌, transaction}
use multi_tenant_project_man.Prisma.{Prisma}
use multi_tenant_project_man.Schema.{User, RefreshSession, users_model, sessions_model}
use multi_tenant_project_man.World.{World, write}

-- AuthContext
pub record AuthContext : Type 0 where
  pub user_agent : Option String
  pub ip_address : Option String

-- CreateRefreshSessionData as the row that is stored, under the id that the database makes.
abbrev pub session_row :
    (id user_id token_hash : String) → (expires_at : ℕ) → AuthContext → RefreshSession
session_row id user_id token_hash expires_at context = record {
  id = id;
  user_id = user_id;
  token_hash = token_hash;
  expires_at = expires_at;
  revoked_at = none;
  user_agent = context.user_agent;
  ip_address = context.ip_address;
}

module _ {db : Prisma} where
  unfoldable pub find_user_by_id : String → World db → Option User
  find_user_by_id id w = db.find_id users_model id w.users

  unfoldable pub create_refresh_session : RefreshSession → Action (World db) (Unit {0})
  create_refresh_session s w =
      write (db.create sessions_model s w.sessions) (λ t v. record v { sessions = t }) tt w

  unfoldable pub find_refresh_session_by_hash : String → World db → Option RefreshSession
  find_refresh_session_by_hash token_hash w =
      db.find_first sessions_model (λ s. s.token_hash == token_hash) w.sessions

  -- `updateMany({ where: { tokenHash, revokedAt: null }, data: { revokedAt: now } })`
  unfoldable pub revoke_refresh_session_by_hash : ℕ → String → Action (World db) (Unit {0})
  revoke_refresh_session_by_hash now token_hash w = pure tt (record w {
    sessions =
        db.update_many sessions_model
          (λ s. s.token_hash == token_hash && not (is_some s.revoked_at))
          (λ s. record s { revoked_at = some now }) w.sessions;
  })

  unfoldable pub revoke_all_user_sessions : ℕ → String → Action (World db) (Unit {0})
  revoke_all_user_sessions now user_id w = pure tt (record w {
    sessions =
        db.update_many sessions_model (λ s. s.user_id == user_id && not (is_some s.revoked_at))
          (λ s. record s { revoked_at = some now }) w.sessions;
  })

  unfoldable pub revoke_session : ℕ → String → Action (World db) (Unit {0})
  revoke_session now id w =
      write (db.update sessions_model id (λ s. record s { revoked_at = some now }) w.sessions)
        (λ t v. record v { sessions = t }) tt w

  unfoldable pub rotate_refresh_session :
      ℕ → (old_session_id : String) → RefreshSession → Action (World db) (Unit {0})
  unfolding revoke_session create_refresh_session
  rotate_refresh_session now old_session_id fresh =
      transaction do revoke_session now old_session_id; create_refresh_session fresh

  unfoldable pub update_user : String → (User → User) → Action (World db) (Unit {0})
  update_user id change w =
      write (db.update users_model id change w.users) (λ t v. record v { users = t }) tt w

  unfoldable pub update_password : (id password_hash : String) → Action (World db) (Unit {0})
  unfolding update_user
  update_password id password_hash =
      update_user id (λ u. record u { password_hash = password_hash })

  unfoldable pub update_totp_secret :
      (id : String) → Option String → Bool → Action (World db) (Unit {0})
  unfolding update_user
  update_totp_secret id secret enabled =
      update_user id (λ u. record u { totp_secret = secret; totp_enabled = enabled })
