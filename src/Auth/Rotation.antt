-- ===== src/Auth/Rotation.antt =====
-- auth.service.ts: a refresh token is good for one refresh.
use multi_tenant_project_man.Base.{
  ℕ, String, Bool, true, none, some, ◌==◌, ◌&&◌, ◌≡◌, ◌≢◌, ◌≤◌, refl, inl, inr, eq_iff, arith, not,
  map_option, is_some, Option-cases, ap, sym, ◌+◌, ◌*◌, if◌then◌else◌,
}
use multi_tenant_project_man.Base.Error.{app, unauthorized}
use multi_tenant_project_man.Base.Monad.{ok, err}
use multi_tenant_project_man.Prisma.{Prisma, IsPlain, Write, done, written}
use multi_tenant_project_man.Schema.{RefreshSession, users_model, sessions_model}
use multi_tenant_project_man.World.{Runtime, World, Claims}
use multi_tenant_project_man.Tokens.{hash_token, verify_refresh_token}
use multi_tenant_project_man.Sessions.{
  AuthContext, find_user_by_id, find_refresh_session_by_hash, rotate_refresh_session,
}
use multi_tenant_project_man.Auth.{TokenDraws, TokenPair, new_session, token_pair, refresh}

abbrev pub revoke_row : ℕ → RefreshSession → RefreshSession
revoke_row now s = record s { revoked_at = some now }

pub revoke_row-IsPlain : (now : ℕ) → IsPlain sessions_model (revoke_row now)
revoke_row-IsPlain now = record {
  id = λ s. refl;
  clash_left = λ s t. refl;
  clash_right = λ s t. refl;
}

abbrev pub live_of : String → RefreshSession → Bool
live_of user_id s = s.user_id == user_id && not (is_some s.revoked_at)

module _ {db : Prisma} (now : ℕ) (id : String) (fresh : RefreshSession) (w w' : World db)
    (success : rotate_refresh_session now id fresh w ≡ (ok tt, w')) where
  abbrev marked : Write (db.Table sessions_model)
  marked = db.update sessions_model id (revoke_row now) w.sessions

  rotate_tables :
      (marked ≡ done (written w.sessions marked))
      × (db.create sessions_model fresh (written w.sessions marked) ≡ done w'.sessions)
  unfolding rotate_refresh_session
  rotate_tables = ground arith

  -- The sessions after a rotation.
  pub rotate_rows :
      (k : String)
      → db.find_id sessions_model k w'.sessions ≡ (
          if fresh.id == k
          then some fresh
          else if id == k
          then map_option (revoke_row now) (db.find_id sessions_model k w.sessions)
          else db.find_id sessions_model k w.sessions)
  rotate_rows k =
      let (first, second) = rotate_tables in
      ground (
        arith,
        db.find_id-update sessions_model id (revoke_row now) w.sessions (written w.sessions marked)
            k (λ s. refl) first,
        db.find_id-create sessions_model fresh (written w.sessions marked) w'.sessions k second,
      )

  rotate_fresh : db.find_id sessions_model fresh.id (written w.sessions marked) ≡ none
  rotate_fresh = db.create_fresh sessions_model fresh _ w'.sessions rotate_tables.1

  pub rotate_new_id :
      (s : RefreshSession) → db.find_id sessions_model id w.sessions ≡ some s → fresh.id ≢ id
  rotate_new_id s found same = ground (
    arith,
    rotate_fresh,
    db.find_id-update sessions_model id (revoke_row now) w.sessions (written w.sessions marked)
        fresh.id (λ r. refl) rotate_tables.0,
    eq_iff id fresh.id,
  )

module _ {db : Prisma} (rt : Runtime) (now : ℕ) (draws : TokenDraws) (token : String)
    (context : AuthContext) (w w' : World db) (p : TokenPair)
    (success : refresh rt now draws token context w ≡ (ok p, w')) where
  refresh_absent : find_refresh_session_by_hash (hash_token rt token) w ≢ none
  unfolding refresh
  refresh_absent absent = ground arith

  module _ (s : RefreshSession)
      (found : find_refresh_session_by_hash (hash_token rt token) w ≡ some s) where
    refresh_steps :
        (s.revoked_at ≡ none)
        × (now ≤ s.expires_at)
        × (rotate_refresh_session now s.id (new_session rt now draws context p.user) w
            ≡ (ok tt, w'))
        × (find_user_by_id s.user_id w ≡ some p.user)
        × (p ≡ token_pair rt now draws p.user)
    unfolding refresh
    refresh_steps = ground arith

    row_of_token :
        (db.find_id sessions_model s.id w.sessions ≡ some s) × (s.token_hash ≡ hash_token rt token)
    unfolding find_refresh_session_by_hash
    row_of_token =
        let (holds, row) = db.find_first_sound sessions_model _ w.sessions s found in
        (row, (eq_iff _ _).0 holds)

    row_revoked : db.find_id sessions_model s.id w'.sessions ≡ some (revoke_row now s)
    row_revoked =
        let (_, _, rotated, _, _) = refresh_steps in
        let (row, _) = row_of_token in
        ground (
          arith,
          row,
          rotate_rows now s.id (new_session rt now draws context p.user) w w' rotated s.id,
          rotate_new_id now s.id (new_session rt now draws context p.user) w w' rotated s row,
          eq_iff draws.session_id s.id,
          eq_iff s.id s.id,
        )

    -- The token now belongs to a session that is revoked.
    pub found_revoked :
        find_refresh_session_by_hash (hash_token rt token) w' ≡ some (revoke_row now s)
    unfolding find_refresh_session_by_hash
    found_revoked =
        let hash = hash_token rt token in
        let (_, same_hash) = row_of_token in
        elim (Option-cases (find_refresh_session_by_hash hash w')) [
          | inl absent ↦ ground (
            arith,
            db.find_first_complete sessions_model (λ r. r.token_hash == hash) w'.sessions s.id
                (revoke_row now s),
            row_revoked,
            eq_iff s.token_hash hash,
          )
          | inr (r, still) ↦ ground (
            arith,
            db.find_first_sound sessions_model (λ r. r.token_hash == hash) w'.sessions r,
            db.distinct sessions_model w'.sessions s.id r.id (revoke_row now s) r row_revoked,
            row_revoked,
            eq_iff s.token_hash r.token_hash,
            eq_iff r.token_hash hash,
            eq_iff s.id r.id,
          )
        ]

    -- When a refresh with a token succeeds, the session of the token was not revoked and not
    -- expired; afterwards it is revoked, and a session of the same user, which is not revoked
    -- and ends in 7 days, is stored under the new id with the hash of the refresh token that
    -- is answered.
    pub rotates :
        (s.revoked_at ≡ none)
        × (now ≤ s.expires_at)
        × (db.find_id sessions_model s.id w'.sessions ≡ some (revoke_row now s))
        × (r : RefreshSession) × (db.find_id sessions_model draws.session_id w'.sessions ≡ some r)
        × (r.user_id ≡ s.user_id)
        × (r.token_hash ≡ hash_token rt p.refresh_token)
        × (r.revoked_at ≡ none)
        × (r.expires_at ≡ now + 7 * 24 * 60 * 60 * 1000)
        × (p.user.id ≡ s.user_id)
    unfolding find_user_by_id
    rotates =
        let (live, in_time, rotated, user, pair) = refresh_steps in
        let r = new_session rt now draws context p.user in
        let same_user = db.id-find_id users_model s.user_id w.users p.user user in
        (
          live,
          in_time,
          row_revoked,
          r,
          ground (
            arith,
            rotate_rows now s.id r w w' rotated draws.session_id,
            eq_iff draws.session_id draws.session_id,
          ),
          same_user,
          ap (λ q. hash_token rt q.refresh_token) (sym pair),
          refl,
          refl,
          same_user,
        )

    -- After a refresh with a token has succeeded, another refresh with the same token, whose
    -- signature is still good, is refused with TOKEN_REVOKED, and after it every session of
    -- that user is revoked.
    pub replay :
        (now' : ℕ) (draws' : TokenDraws) (context' : AuthContext) (c : Claims) (k : String)
        (r : RefreshSession)
        → verify_refresh_token rt now' token ≡ some c
        → let replayed = refresh rt now' draws' token context' w' in
          (replayed.0 ≡ err (app (unauthorized "TOKEN_REVOKED")))
          × (db.find_id sessions_model k replayed.1.sessions ≡ some r
              → r.user_id ≡ s.user_id
              → is_some r.revoked_at ≡ true)
    unfolding refresh
    replay now' draws' context' c k r genuine = (
      ground (arith, found_revoked),
      λ row same_user. ground (
        arith,
        found_revoked,
        db.find_id-update_many sessions_model (live_of s.user_id) (revoke_row now') w'.sessions k
            (revoke_row-IsPlain now'),
        eq_iff r.user_id s.user_id,
      ),
    )
