-- ===== src/Tokens.antt =====
-- utils/jwt.ts. The random part of a token and the time are arguments.
use multi_tenant_project_man.Base.{ℕ, String, Option, none, some, ◌+◌, ◌*◌, ◌/◌}
use multi_tenant_project_man.World.{Runtime, Claims}

-- `hashToken`
abbrev pub hash_token : Runtime → String → String
hash_token rt token = rt.sha256_hex token

abbrev pub no_claims : Claims
no_claims = record {
  user_id = none;
  email = none;
  jti = none;
  exp = none;
  purpose = none;
  token_id = none;
}

-- Milliseconds to the seconds of a token.
abbrev pub seconds : ℕ → ℕ
seconds ms = ms / 1000

-- `generateAccessToken({ userId, email })`, with a random `jti`
unfoldable pub generate_access_token : Runtime → ℕ → (jti user_id email : String) → String
generate_access_token rt now jti user_id email =
    rt.sign rt.jwt_secret (seconds now) rt.jwt_expires_in
      (record no_claims { user_id = some user_id; email = some email; jti = some jti })

-- `generateRefreshToken({ userId, tokenId })`
unfoldable pub generate_refresh_token : Runtime → ℕ → (token_id user_id : String) → String
generate_refresh_token rt now token_id user_id =
    rt.sign rt.jwt_refresh_secret (seconds now) rt.jwt_refresh_expires_in
      (record no_claims { user_id = some user_id; token_id = some token_id })

-- `verifyAccessToken`; none where it throws
unfoldable pub verify_access_token : Runtime → ℕ → String → Option Claims
verify_access_token rt now token = rt.verify rt.jwt_secret (seconds now) token

-- `verifyRefreshToken`
unfoldable pub verify_refresh_token : Runtime → ℕ → String → Option Claims
verify_refresh_token rt now token = rt.verify rt.jwt_refresh_secret (seconds now) token

-- `getRefreshTokenExpiry`: 7 days from now, on a server without daylight saving time
abbrev pub refresh_token_expiry : ℕ → ℕ
refresh_token_expiry now = now + 7 * 24 * 60 * 60 * 1000
