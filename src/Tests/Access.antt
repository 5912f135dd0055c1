-- ===== src/Tests/Access.antt =====
-- Logout, access and codes of the small team.
use multi_tenant_project_man.Base.{
  String, ◌≡◌, ◌∷◌, [], Option, refl, some, none, true, false, Bool, Bool-cases, ne_of_==, arith,
}
use multi_tenant_project_man.Base.Error.{app, unauthorized}
use multi_tenant_project_man.Base.Monad.{ok, err}
use multi_tenant_project_man.Prisma.Rows.Client.{rows, update_many, store_or, store_if, or_same}
use multi_tenant_project_man.Prisma.Rows.Lists.{first, find, check, fits, change_many}
use multi_tenant_project_man.Schema.{owner, admin, members_model, sessions_model}
use multi_tenant_project_man.World.{Runtime, World, Claims}
use multi_tenant_project_man.Tokens.{hash_token, verify_refresh_token, verify_access_token}
use multi_tenant_project_man.Totp.{
  codes, same_codes, base32_value, decode_from, base32_decode, big_endian, byte_at, six_digits,
  truncated, all_digits, any_step, generate_totp_code, verify_totp_code, generate_hotp,
}
use multi_tenant_project_man.Sessions.{find_refresh_session_by_hash, revoke_refresh_session_by_hash}
use multi_tenant_project_man.Organizations.Repository.{find_member}
use multi_tenant_project_man.Totp.Window.{verify_recent}
use multi_tenant_project_man.Auth.{TokenDraws, mfa_token, refresh}
use multi_tenant_project_man.Auth.Rotation.{revoke_row}
use multi_tenant_project_man.Auth.Logout.{
  LogoutInput, logout, revoke_access, revoke_verified, revoke_decoded, logout_ends,
}
use multi_tenant_project_man.Auth.Authenticate.{
  bearer_token, authenticate, check_revoked, authorize_org_role, check_role, authorized,
  admits_challenge,
}
use multi_tenant_project_man.Tests.Data.{team, rt, session, claims, bob, context}

abbrev draws : TokenDraws
draws = record { jti = "j2"; token_id = "t2"; session_id = "s2" }

-- Every token verifies, and has an id.
abbrev named_claims : Claims
named_claims = record claims { jti = some "j1" }

abbrev naming : Runtime
naming = record rt { verify = λ secret now token. some named_claims }

abbrev input : LogoutInput
input = record {
  raw_refresh_token = some "refresh-t1";
  access_token = some "access-j1";
  jti = none;
}

genuine : verify_refresh_token rt 1000 "refresh-t1" ≡ some claims
unfolding verify_refresh_token
genuine = refl

abbrev logged_out : World rows
logged_out = (logout rt 2000 input team).1

ended :
    find_refresh_session_by_hash (hash_token rt "refresh-t1") logged_out
    ≡ some (revoke_row 2000 session)
unfolding find_refresh_session_by_hash logout revoke_access revoke_verified revoke_decoded
    revoke_refresh_session_by_hash update_many or_same store_or store_if Bool-cases first find check
    fits change_many
ended = refl

logout_ends_example :
    (refresh rt 1000 draws "refresh-t1" context logged_out).0
    ≡ err (app (unauthorized "TOKEN_REVOKED"))
logout_ends_example =
    logout_ends {db = rows} rt 2000 input team "refresh-t1" refl (ne_of_== "refresh-t1" "" refl)
      1000 draws context claims (revoke_row 2000 session) genuine ended

session_row : rows.find_id sessions_model "s1" team.sessions ≡ some session
unfolding find
session_row = refl

admitted_admin : authorize_org_role (owner ∷ admin ∷ []) (some "u2") (some "o1") team ≡ ok bob
unfolding authorize_org_role check_role find_member first
admitted_admin = refl

authorized_example : rows.find_id members_model "m2" team.members ≡ some bob
authorized_example =
    (authorized {db = rows} (owner ∷ admin ∷ []) "u2" "o1" team bob admitted_admin).3

abbrev not_revoked : String → Option Bool
not_revoked jti = some false

admitted :
    authenticate naming 1000 not_revoked (some "access-j1")
    ≡ ok (record { id = some "u3"; email = none; jti = some "j1" })
unfolding authenticate bearer_token check_revoked verify_access_token
admitted = refl

-- A verified token has the time of its end.
abbrev ending : Runtime
ending = record rt { verify = λ secret now token. some (record claims { exp = some 301 }) }

carried : bearer_token ending "access-" ≡ some (mfa_token ending 1000 "u3")
unfolding bearer_token mfa_token
carried = refl

admits_challenge_example :
    authenticate ending 1000 not_revoked (some "access-")
    ≡ ok (record { id = some "u3"; email = none; jti = none })
admits_challenge_example =
    admits_challenge ending 1000 not_revoked 1000 "access-" "u3" 301 carried (λ same. absurd cc)
      refl

code_at_1000 : codes "000033" ≡ generate_totp_code rt "ABCDEFGH" 1000
unfolding generate_totp_code generate_hotp truncated big_endian byte_at six_digits base32_decode
    decode_from base32_value
code_at_1000 = refl

verify_recent_example : verify_totp_code rt 1020 "ABCDEFGH" "000033" ≡ true
verify_recent_example =
    verify_recent rt "ABCDEFGH" "000033" 1000 1020 (ne_of_== "ABCDEFGH" "" refl) code_at_1000
      (omega arith) (omega arith)

accepted_code : verify_totp_code rt 1020 "ABCDEFGH" "000033" ≡ true
unfolding verify_totp_code any_step all_digits generate_hotp truncated big_endian byte_at six_digits
    same_codes base32_decode decode_from base32_value
accepted_code = refl
