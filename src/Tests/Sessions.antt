-- ===== src/Tests/Sessions.antt =====
-- Logins, sessions and codes of the small team.
use multi_tenant_project_man.Base.{◌≡◌, ◌∷◌, [], refl, some, true, false, Bool-cases}
use multi_tenant_project_man.Base.Error.{app, unauthorized}
use multi_tenant_project_man.Base.Monad.{ok, err}
use multi_tenant_project_man.Prisma.Rows.Client.{
  rows, create, update, update_many, store_or, store_if, update_if, or_same,
}
use multi_tenant_project_man.Prisma.Rows.Lists.{first, find, check, fits, change, change_many}
use multi_tenant_project_man.Schema.{User, users_model, sessions_model}
use multi_tenant_project_man.World.{World}
use multi_tenant_project_man.Tokens.{
  hash_token, verify_refresh_token, generate_access_token, generate_refresh_token,
}
use multi_tenant_project_man.Totp.{
  same_codes, base32_value, decode_from, base32_decode, big_endian, byte_at, six_digits, truncated,
  all_digits, any_step, verify_totp_code, generate_hotp,
}
use multi_tenant_project_man.Sessions.{
  find_user_by_id, find_refresh_session_by_hash, create_refresh_session, revoke_session,
  rotate_refresh_session, revoke_all_user_sessions, update_user, update_password,
  update_totp_secret,
}
use multi_tenant_project_man.Organizations.Repository.{find_user_by_email}
use multi_tenant_project_man.Auth.{
  TokenDraws, TokenPair, logged_in, accepts_code, start_session, complete_login, login,
  refuse_replay, refresh, change_password, setup_2fa, verify_and_enable_2fa, find_protected,
  verify_mfa_login,
}
use multi_tenant_project_man.Auth.Rotation.{revoke_row, rotates, replay}
use multi_tenant_project_man.Auth.Revoked.{signs_out, verify_mfa_passes}
use multi_tenant_project_man.Tests.Data.{team, rt, user, session, context, claims}

abbrev draws : TokenDraws
draws = record { jti = "j2"; token_id = "t2"; session_id = "s2" }

abbrev cy : User
cy = user "u3" "Cy" "cy@x.io" (some "ABCDEFGH") false

abbrev fresh_pair : User → TokenPair
fresh_pair u = record { access_token = "access-j2"; refresh_token = "refresh-t2"; user = u }

found_session : find_refresh_session_by_hash (hash_token rt "refresh-t1") team ≡ some session
unfolding find_refresh_session_by_hash first
found_session = refl

found_cy : find_user_by_id "u3" team ≡ some cy
unfolding find_user_by_id find
found_cy = refl

found_address : find_user_by_email (rt.to_lower_case (rt.trim "cy@x.io")) team ≡ some cy
unfolding find_user_by_email first
found_address = refl

genuine : verify_refresh_token rt 1000 "refresh-t1" ≡ some claims
unfolding verify_refresh_token
genuine = refl

abbrev refreshed : World rows
refreshed = (refresh rt 1000 draws "refresh-t1" context team).1

refresh_succeeds : refresh rt 1000 draws "refresh-t1" context team ≡ (ok (fresh_pair cy), refreshed)
unfolding refresh refuse_replay revoke_all_user_sessions find_refresh_session_by_hash
    find_user_by_id rotate_refresh_session revoke_session create_refresh_session
    generate_access_token generate_refresh_token verify_refresh_token create update update_if
    update_many or_same store_or store_if Bool-cases first find check fits change change_many
refresh_succeeds = refl

rotates_example :
    rows.find_id sessions_model "s1" refreshed.sessions ≡ some (revoke_row 1000 session)
rotates_example =
    (rotates {db = rows} rt 1000 draws "refresh-t1" context team refreshed (fresh_pair cy)
      refresh_succeeds session found_session).2

replay_example :
    (refresh rt 1000 draws "refresh-t1" context refreshed).0
    ≡ err (app (unauthorized "TOKEN_REVOKED"))
replay_example =
    (replay {db = rows} rt 1000 draws "refresh-t1" context team refreshed (fresh_pair cy)
      refresh_succeeds session found_session 1000 draws context claims "s1" session genuine).0

abbrev changed : World rows
changed = (change_password rt 2000 "salt" "u3" "password" "better" (some "j1") team).1

change_succeeds :
    change_password rt 2000 "salt" "u3" "password" "better" (some "j1") team ≡ (ok tt, changed)
unfolding change_password find_user_by_id update_password update_user revoke_all_user_sessions
    update update_if update_many or_same store_or store_if Bool-cases find check fits change
    change_many
change_succeeds = refl

found_revoked_session :
    find_refresh_session_by_hash (hash_token rt "refresh-t1") changed
    ≡ some (revoke_row 2000 session)
unfolding find_refresh_session_by_hash change_password find_user_by_id update_password update_user
    revoke_all_user_sessions update update_if update_many or_same store_or store_if Bool-cases first
    find check fits change change_many
found_revoked_session = refl

signs_out_example :
    (refresh rt 1000 draws "refresh-t1" context changed).0
    ≡ err (app (unauthorized "TOKEN_REVOKED"))
signs_out_example =
    signs_out {db = rows} rt 2000 "salt" "u3" "password" "better" (some "j1") team changed
      change_succeeds 1000 draws "refresh-t1" context claims (revoke_row 2000 session) genuine
      found_revoked_session refl

abbrev logged : World rows
logged = (login rt 1000 draws "cy@x.io" "password" context team).1

login_succeeds :
    login rt 1000 draws "cy@x.io" "password" context team ≡ (ok (logged_in (fresh_pair cy)), logged)
unfolding login complete_login start_session find_user_by_email create_refresh_session
    generate_access_token generate_refresh_token create store_or store_if Bool-cases first find
    check fits
login_succeeds = refl

-- The same colleague, with the second factor on.
abbrev protected_cy : User
protected_cy = user "u3" "Cy" "cy@x.io" (some "ABCDEFGH") true

protected_fits : check users_model (protected_cy ∷ []) ≡ true
unfolding check fits
protected_fits = refl

abbrev protected_team : World rows
protected_team = record team { users = (protected_cy ∷ [], protected_fits) }

found_protected_address :
    find_user_by_email (rt.to_lower_case (rt.trim "cy@x.io")) protected_team ≡ some protected_cy
unfolding find_user_by_email first
found_protected_address = refl

found_protected_cy : find_user_by_id "u3" protected_team ≡ some protected_cy
unfolding find_user_by_id find
found_protected_cy = refl

abbrev verified : World rows
verified = (verify_mfa_login rt 1000000 draws "challenge" "000033" context protected_team).1

verify_succeeds :
    verify_mfa_login rt 1000000 draws "challenge" "000033" context protected_team
    ≡ (ok (fresh_pair protected_cy), verified)
unfolding verify_mfa_login find_protected find_user_by_id start_session create_refresh_session
    generate_access_token generate_refresh_token verify_totp_code any_step all_digits generate_hotp
    truncated big_endian byte_at six_digits same_codes base32_decode decode_from base32_value create
    store_or store_if Bool-cases find check fits
verify_succeeds = refl

verify_mfa_passes_example : accepts_code rt 1000000 (some "ABCDEFGH") "000033" ≡ true
verify_mfa_passes_example =
    (verify_mfa_passes {db = rows} rt 1000000 draws context protected_team verified "challenge"
      "000033" claims (fresh_pair protected_cy) refl verify_succeeds).3

abbrev enabled : World rows
enabled = (verify_and_enable_2fa rt 1000000 "u3" "000033" team).1

enable_succeeds : verify_and_enable_2fa rt 1000000 "u3" "000033" team ≡ (ok tt, enabled)
unfolding verify_and_enable_2fa find_user_by_id update_totp_secret update_user verify_totp_code
    any_step all_digits generate_hotp truncated big_endian byte_at six_digits same_codes
    base32_decode decode_from base32_value update update_if store_or store_if Bool-cases find check
    fits change
enable_succeeds = refl

abbrev set_up : World rows
set_up = (setup_2fa rt "NEWSECRET" "u3" protected_team).1

setup_succeeds : setup_2fa rt "NEWSECRET" "u3" protected_team ≡ (ok "NEWSECRET", set_up)
unfolding setup_2fa find_user_by_id update_totp_secret update_user update update_if store_or
    store_if Bool-cases find check fits change
setup_succeeds = refl
