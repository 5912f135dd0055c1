-- ===== src/Auth/Register.antt =====
-- auth.service.ts and auth.repository.ts: registration, with its slug.
use Prim.Native.Char.{code}
use Prim.Native.String
use multi_tenant_project_man.Base.{
  ℕ, String, Bool, true, false, none, ◌≡◌, ◌==◌, ◌&&◌, ◌||◌, nat_eq, leb, is_some, if◌then◌else◌,
  arith,
}
use multi_tenant_project_man.Base.Error.{Failure, conflict}
use multi_tenant_project_man.Base.Monad.{
  Action, err, pure, ◌>>=◌, ◌>>◌, gets, throw_if, transaction,
}
use multi_tenant_project_man.Prisma.{Prisma}
use multi_tenant_project_man.Schema.{User, RefreshSession, Organization, owner}
use multi_tenant_project_man.World.{Runtime, World}
use multi_tenant_project_man.Projects.Keys.{is_space, keep}
use multi_tenant_project_man.Sessions.{AuthContext, create_refresh_session}
use multi_tenant_project_man.Organizations.Repository.{find_user_by_email, find_by_slug}
use multi_tenant_project_man.Organizations.Transactions.{
  create_user, create_organization, create_member,
}
use multi_tenant_project_man.Auth.{TokenDraws, TokenPair, token_pair, new_session}

-- `\w`
abbrev is_word : ℕ → Bool
is_word c =
    (leb 97 c && leb c 122) || ((leb 65 c && leb c 90) || ((leb 48 c && leb c 57) || nat_eq c b'_'))

-- `[\s_-]`
abbrev is_separator : ℕ → Bool
is_separator c = is_space c || (nat_eq c b'_' || nat_eq c b'-')

-- `s.replace(/[\s_-]+/g, '-')`, after a separator or not
abbrev join_words : (after_separator : Bool) → String → String
join_words after_separator String.[] = String.[]
join_words after_separator (String.◌∷◌ c s) =
    let more = join_words true s in
    let next = String.◌∷◌ c (join_words false s) in
    if is_separator (code c) then (if after_separator then more else String.◌∷◌ "-" more) else next

-- `s.replace(/^-+|-+$/g, '')`
abbrev drop_leading : String → String
drop_leading String.[] = String.[]
drop_leading (String.◌∷◌ c s) =
    let rest = drop_leading s in if nat_eq (code c) b'-' then rest else String.◌∷◌ c s

abbrev drop_trailing : String → String
drop_trailing String.[] = String.[]
drop_trailing (String.◌∷◌ c s) =
    let rest = drop_trailing s in
    if nat_eq (code c) b'-' && rest == "" then String.[] else String.◌∷◌ c rest

unfoldable pub slugify : Runtime → String → String
slugify rt text =
    let words =
      keep (λ c. is_word c || (is_space c || nat_eq c b'-')) (rt.trim (rt.to_lower_case text)) in
    let slug = drop_trailing (drop_leading (join_words false words)) in
    if slug == "" then "org" else slug

pub record RegisterInput : Type 0 where
  pub name : String
  pub email : String
  pub password : String
  pub organization_name : String

-- The new ids, the salt of bcrypt and the suffix of a slug that is taken.
pub record RegisterDraws : Type 0 where
  pub user_id : String
  pub organization_id : String
  pub member_id : String
  pub tokens : TokenDraws
  pub salt : String
  pub slug_suffix : String

pub record RegisterResult : Type 0 where
  pub tokens : TokenPair
  pub organization : Organization

abbrev pub normalized_address : Runtime → String → String
normalized_address rt email = rt.to_lower_case (rt.trim email)

-- The row of the new user.
abbrev pub registered_user : Runtime → RegisterDraws → RegisterInput → User
registered_user rt draws input = record {
  id = draws.user_id;
  name = rt.trim input.name;
  email = normalized_address rt input.email;
  password_hash = rt.bcrypt_hash draws.salt input.password;
  avatar_url = none;
  is_email_verified = false;
  totp_secret = none;
  totp_enabled = false;
}

module _ {db : Prisma} (rt : Runtime) where
  unfoldable pub generate_unique_slug : (suffix name : String) → World db → String
  unfolding slugify find_by_slug
  generate_unique_slug suffix name w =
      if is_some (find_by_slug (slugify rt name) w)
      then String.◌++◌ (slugify rt name) (String.◌++◌ "-" suffix)
      else slugify rt name

  -- `registerUserAndOrganization`: the user, the organization, its owner and the session, or none
  -- of them.
  unfoldable pub register_user_and_organization :
      RegisterDraws → User → Organization → RefreshSession → Action (World db) (Unit {0})
  unfolding create_user create_organization create_member create_refresh_session
  register_user_and_organization draws user organization session = transaction (do
    create_user user
    create_organization organization
    create_member (record {
      id = draws.member_id;
      organization_id = organization.id;
      user_id = user.id;
      role = owner;
    })
    create_refresh_session session)

  unfoldable pub register :
      ℕ → RegisterDraws → RegisterInput → AuthContext → Action (World db) RegisterResult
  unfolding find_user_by_email generate_unique_slug register_user_and_organization
  register now draws input context = do
    existing ← gets (find_user_by_email (normalized_address rt input.email))
    throw_if (is_some existing) (conflict "USER_ALREADY_EXISTS")
    slug ← gets (generate_unique_slug draws.slug_suffix input.organization_name)
    let user = registered_user rt draws input
    let organization : Organization = record {
      id = draws.organization_id;
      name = rt.trim input.organization_name;
      slug = slug;
      owner_id = draws.user_id;
    }
    register_user_and_organization draws user organization
        (new_session rt now draws.tokens context user)
    pure (record { tokens = token_pair rt now draws.tokens user; organization = organization })

  -- When a registration fails, nothing at all was written.
  pub register_atomic :
      (now : ℕ) (draws : RegisterDraws) (input : RegisterInput) (context : AuthContext)
      (w : World db) (e : Failure)
      → (register now draws input context w).0 ≡ err e
      → (register now draws input context w).1 ≡ w
  unfolding register register_user_and_organization
  register_atomic now draws input context w e failed = ground arith
