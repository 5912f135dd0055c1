-- ===== src/Edge/Platform.antt =====
-- middlewares/authorization.middleware.ts, `requirePlatformAdmin`. `timingSafeEqual` compares the
-- bytes of two texts.
use Prim.Native.Char.{Char, code}
use Prim.Native.String
use Prim.Native.String.append
use text.Mathlib.TextEquality.{Char-path}
use multi_tenant_project_man.Base.{
  String, Option, none, some, ◌==◌, not, ◌≡◌, ◌≢◌, ◌↔◌, ◌⊎◌, true, false, refl, sym, ap, subst, ◌∙◌,
  Bool-cases, arith, present, or_default, map_option, eq_iff, nat_eq, if◌then◌else◌, is_value,
  Option-cases, inl, inr,
}
use multi_tenant_project_man.Base.Error.{app, forbidden}
use multi_tenant_project_man.Base.Monad.{Result, ok, err}

-- The three headers, each by its first value, and `authorization`.
pub record PlatformRequest : Type 0 where
  pub x_platform_secret : Option String
  pub x_system_secret : Option String
  pub x_platform_admin_secret : Option String
  pub authorization : Option String

-- `s.startsWith(prefix) ? s.slice(prefix.length) : undefined`
unfoldable pub strip_prefix : (prefix s : String) → Option String
strip_prefix String.[] s = some s
strip_prefix (String.◌∷◌ c prefix) String.[] = none
strip_prefix (String.◌∷◌ c prefix) (String.◌∷◌ d s) =
    let rest = strip_prefix prefix s in if nat_eq (code c) (code d) then rest else none

code_eq : (c d : Char) → nat_eq (code c) (code d) ≡ true → c ≡ d
code_eq c d same = Char-path c d (ground arith)

strip_prefix_sound :
    (prefix s rest : String) → strip_prefix prefix s ≡ some rest → s ≡ String.◌++◌ prefix rest
unfolding strip_prefix
strip_prefix_sound String.[] s rest h = ground (arith, append.nil rest)
strip_prefix_sound (String.◌∷◌ c prefix) String.[] rest h = absurd cc
strip_prefix_sound (String.◌∷◌ c prefix) (String.◌∷◌ d s) rest h =
    elim (Bool-cases (nat_eq (code c) (code d))) [
      | inl same ↦
          let later = strip_prefix_sound prefix s rest (ground arith) in
          ap (λ x. String.◌∷◌ x s) (sym (code_eq c d same))
          ∙ ap (λ t. String.◌∷◌ c t) later
          ∙ sym (append.cons c prefix rest)
      | inr other ↦ absurd (ground arith)
    ]

strip_prefix_complete :
    (prefix rest : String) → strip_prefix prefix (String.◌++◌ prefix rest) ≡ some rest
unfolding strip_prefix
strip_prefix_complete String.[] rest = rw (append.nil rest) refl
strip_prefix_complete (String.◌∷◌ c prefix) rest =
    let later = strip_prefix_complete prefix rest in
    rw (append.cons c prefix rest) (ground (arith, later))

-- `a || b`
abbrev first_present : Option String → Option String → Option String
first_present a b = if present a then a else b

abbrev stripped : Option String → Option String
stripped none = none
stripped (some header) = strip_prefix "Bearer " header

module _ (trim : String → String) where
  unfoldable pub configured_secret :
      (node_env : String) (platform_admin_secret : Option String) → String
  configured_secret node_env platform_admin_secret =
      if present platform_admin_secret
      then or_default platform_admin_secret ""
      else if node_env == "test"
      then "test-platform-secret"
      else ""

  -- What the request offers as the secret
  unfoldable pub candidate_secret : (secret : String) → PlatformRequest → Option String
  unfolding strip_prefix
  candidate_secret secret req =
      let header =
        first_present (first_present req.x_platform_secret req.x_system_secret)
          req.x_platform_admin_secret in
      let bearer = map_option trim (stripped req.authorization) in
      if present header then header else if is_value bearer secret then bearer else none

  unfoldable pub require_platform_admin :
      (node_env : String) (platform_admin_secret : Option String)
      → PlatformRequest
      → Result (Unit {0})
  unfolding configured_secret candidate_secret
  require_platform_admin node_env platform_admin_secret req =
      let secret = configured_secret node_env platform_admin_secret in
      if secret == ""
      then err (app (forbidden "PLATFORM_AUTH_NOT_CONFIGURED"))
      else if not (present (candidate_secret secret req))
      then err (app (forbidden "PLATFORM_ADMIN_REQUIRED"))
      else if not (is_value (candidate_secret secret req) secret)
      then err (app (forbidden "INVALID_PLATFORM_SECRET"))
      else ok tt

  -- What a request that carries a secret has: the first of the three headers that is not empty is the
  -- secret, or none is given and `authorization` is `Bearer ` and the secret, less blanks.
  abbrev pub Offers : (secret : String) → PlatformRequest → Type 0
  Offers secret req =
      (req.x_platform_secret ≡ some secret)
      ⊎ ((present req.x_platform_secret ≡ false)
          × ((req.x_system_secret ≡ some secret)
              ⊎ ((present req.x_system_secret ≡ false)
                  × ((req.x_platform_admin_secret ≡ some secret)
                      ⊎ ((present req.x_platform_admin_secret ≡ false)
                          × (s : String) × (req.authorization ≡ some (String.◌++◌ "Bearer " s))
                          × (trim s ≡ secret))))))

  bearer_stripped :
      (secret : String) (o : Option String)
      → map_option trim (stripped o) ≡ some secret
      → (s : String) × (o ≡ some (String.◌++◌ "Bearer " s)) × (trim s ≡ secret)
  bearer_stripped secret none h = absurd cc
  bearer_stripped secret (some header) h = elim (Option-cases (strip_prefix "Bearer " header)) [
    | inl other ↦ absurd (ground arith)
    | inr (s, found) ↦ (s, ap some (strip_prefix_sound "Bearer " header s found), ground arith)
  ]

  stripped_bearer :
      (secret s : String)
      → trim s ≡ secret
      → map_option trim (stripped (some (String.◌++◌ "Bearer " s))) ≡ some secret
  stripped_bearer secret s h = rw (strip_prefix_complete "Bearer " s, h) refl

  offered :
      (secret : String) (req : PlatformRequest)
      → candidate_secret secret req ≡ some secret
      → Offers secret req
  unfolding candidate_secret
  offered secret req given = elim (Bool-cases (present req.x_platform_secret)) [
    | inl first ↦ inl (ground arith)
    | inr no_first ↦ inr (
      no_first,
      elim (Bool-cases (present req.x_system_secret)) [
        | inl second ↦ inl (ground arith)
        | inr no_second ↦ inr (
          no_second,
          elim (Bool-cases (present req.x_platform_admin_secret)) [
            | inl third ↦ inl (ground arith)
            | inr no_third ↦
                let (s, carried, same) = bearer_stripped secret req.authorization (ground arith) in
                inr (no_third, s, carried, same)
          ],
        )
      ],
    )
  ]

  is_offered :
      (secret : String) (req : PlatformRequest)
      → secret ≢ ""
      → Offers secret req
      → candidate_secret secret req ≡ some secret
  unfolding candidate_secret
  is_offered secret req full (inl first) = ground (arith, eq_iff secret "")
  is_offered secret req full (inr (no_first, inl second)) = ground (arith, eq_iff secret "")
  is_offered secret req full (inr (no_first, (inr (no_second, inl third)))) =
      ground (arith, eq_iff secret "")
  is_offered secret req full
        (inr (no_first, (inr (no_second, (inr (no_third, s, carried, same)))))) =
      let bearer : map_option trim (stripped req.authorization) ≡ some secret =
        subst (λ o. map_option trim (stripped o) ≡ some secret) (sym carried)
          (stripped_bearer secret s same) in
      ground (arith, bearer, eq_iff secret secret)

  -- A platform operation is let through exactly where a secret is configured that is not empty
  -- and the first of the three headers for it that is not empty is the secret, or all are
  -- missing or empty and the authorization is "Bearer " and the secret with blanks around it;
  -- outside of tests, none is let through where none is configured.
  pub platform_exact :
      (node_env : String) (platform_admin_secret : Option String) (req : PlatformRequest)
      → let secret = configured_secret node_env platform_admin_secret in
        ((require_platform_admin node_env platform_admin_secret req ≡ ok tt)
          ↔ ((secret ≢ "") × Offers secret req))
        × (node_env ≢ "test"
            → platform_admin_secret ≡ none
            → require_platform_admin node_env platform_admin_secret req
              ≡ err (app (forbidden "PLATFORM_AUTH_NOT_CONFIGURED")))
  unfolding require_platform_admin configured_secret
  platform_exact node_env platform_admin_secret req =
      let secret = configured_secret node_env platform_admin_secret in
      (
        (
          λ passed. elim (Option-cases (candidate_secret secret req)) [
            | inl absent ↦ (absurd (ground arith), absurd (ground arith))
            | inr (found, given) ↦ (
              ground (arith, eq_iff secret ""),
              offered secret req (ground (arith, eq_iff found secret)),
            )
          ],
          λ (full, carried).
              let given = is_offered secret req full carried in
              ground (arith, given, full, eq_iff secret "", eq_iff secret secret),
        ),
        λ outside unset.
            let nothing : secret ≡ "" = ground (arith, eq_iff node_env "test") in
            ground (arith, nothing, eq_iff secret ""),
      )
