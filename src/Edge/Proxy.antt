-- ===== src/Edge/Proxy.antt =====
-- middlewares/cloudflare.middleware.ts: whom a request is taken to come from. The list of trusted
-- proxies (proxy-addr), the check of an address (node:net) and the random id are parameters.
use Prim.Native.String
use multi_tenant_project_man.Base.{
  String, Bool, true, false, Option, none, some, ◌==◌, ◌&&◌, not, ◌≡◌, ◌≢◌, ◌⊎◌, arith, present,
  or_default, eq_iff, if◌then◌else◌, Bool-cases, Option-cases, inl, inr, refl, subst,
}
use multi_tenant_project_man.Base.Error.{app, forbidden}
use multi_tenant_project_man.Base.Monad.{Result, ok, err}

pub record EdgeMetadata : Type 0 where
  pub ray_id : String
  pub client_ip : String
  pub country : String
  pub is_cloudflare : Bool

-- The headers that are read, each by its first value, and what Express and the socket say.
pub record EdgeRequest : Type 0 where
  pub cf_ray : Option String
  pub cf_connecting_ip : Option String
  pub true_client_ip : Option String
  pub cf_ipcountry : Option String
  pub x_origin_verify_secret : Option String
  pub x_test_remote_addr : Option String
  pub remote_address : Option String
  pub ip : Option String

pub record EdgeEnv : Type 0 where
  pub node_env : String
  pub cloudflare_origin_pull_secret : Option String
  pub trim : String → String
  pub is_ip : String → Bool
  pub is_trusted_proxy : String → Bool

-- `value || other`
abbrev or_text : Option String → String → String
or_text value other = if present value then or_default value "" else other

module _ (env : EdgeEnv) (random_id : String) where
  -- `getSocketPeerAddress`
  unfoldable pub get_socket_peer_address : EdgeRequest → String
  get_socket_peer_address req =
      if env.node_env == "test" && present req.x_test_remote_addr
      then or_default req.x_test_remote_addr "127.0.0.1"
      else or_text req.remote_address "127.0.0.1"

  -- An address that a header gives, where it is one.
  unfoldable pub valid_ip : Option String → Option String
  valid_ip none = none
  valid_ip (some raw) =
      if not (env.trim raw == "") && env.is_ip (env.trim raw) then some (env.trim raw) else none

  abbrev first_some : Option String → Option String → Option String
  first_some none b = b
  first_some (some a) b = some a

  -- `rawRay && rawRay.trim().length > 0`
  abbrev not_blank : Option String → Bool
  not_blank none = false
  not_blank (some s) = not (env.trim s == "")

  -- What is known of a request of an untrusted peer, and of one that came through a proxy.
  unfoldable pub of_untrusted : (peer : String) → EdgeMetadata
  of_untrusted peer = record {
    ray_id = String.◌++◌ "direct-" random_id;
    client_ip = peer;
    country = "DIRECT";
    is_cloudflare = false;
  }

  unfoldable pub of_trusted : (peer : String) → EdgeRequest → EdgeMetadata
  unfolding valid_ip
  of_trusted peer req =
      let address = first_some (valid_ip req.cf_connecting_ip) (valid_ip req.true_client_ip) in
      let country =
        if not_blank req.cf_ipcountry then env.trim (or_default req.cf_ipcountry "") else "LOCAL" in
      elim address [
        | some client_ip ↦ record {
          ray_id =
              if not_blank req.cf_ray
              then or_default req.cf_ray ""
              else String.◌++◌ "cf-" random_id;
          client_ip = client_ip;
          country = country;
          is_cloudflare = true;
        }
        | none ↦ record {
          ray_id =
              if not_blank req.cf_ray
              then or_default req.cf_ray ""
              else String.◌++◌ "proxy-" random_id;
          client_ip = or_text req.ip peer;
          country = country;
          is_cloudflare = not_blank req.cf_ray;
        }
      ]

  abbrev is_header : Option String → String → Bool
  is_header none secret = false
  is_header (some value) secret = value == secret

  -- `cloudflareEdgeMiddleware`: `req.edge`, or the answer 403
  unfoldable pub cloudflare_edge_middleware : EdgeRequest → Result EdgeMetadata
  unfolding get_socket_peer_address of_untrusted of_trusted
  cloudflare_edge_middleware req =
      let peer = get_socket_peer_address req in
      let secret = or_default env.cloudflare_origin_pull_secret "" in
      let edge = if env.is_trusted_proxy peer then of_trusted peer req else of_untrusted peer in
      if present env.cloudflare_origin_pull_secret
        && (env.node_env == "production" && not (is_header req.x_origin_verify_secret secret))
      then err (app (forbidden "ORIGIN_PULL_REJECTED"))
      else ok edge

  -- An address that a header gives, less the blanks around it.
  abbrev pub Gives : Option String → String → Type 0
  Gives header a = (raw : String) × (header ≡ some raw) × (env.trim raw ≡ a) × (env.is_ip a ≡ true)

  valid_ip_ok : (raw : Option String) (a : String) → valid_ip raw ≡ some a → Gives raw a
  unfolding valid_ip
  valid_ip_ok none a valid = absurd cc
  valid_ip_ok (some raw) a valid = (raw, refl, ground arith, ground arith)

  trusted_ip :
      (req : EdgeRequest) (peer : String) (edge : EdgeMetadata)
      → env.is_trusted_proxy peer ≡ true
      → edge ≡ of_trusted peer req
      → (edge.client_ip ≡ peer)
        ⊎ ((env.is_trusted_proxy peer ≡ true)
            × ((req.ip ≡ some edge.client_ip)
                ⊎ (Gives req.cf_connecting_ip edge.client_ip
                    ⊎ Gives req.true_client_ip edge.client_ip)))
  unfolding of_trusted
  trusted_ip req peer edge trusted same = elim (Option-cases (valid_ip req.cf_connecting_ip)) [
    | inr (a, given) ↦ inr (
      trusted,
      inr (
          inl (
            subst (Gives req.cf_connecting_ip) (ground arith)
              (valid_ip_ok req.cf_connecting_ip a given))),
    )
    | inl absent ↦ elim (Option-cases (valid_ip req.true_client_ip)) [
      | inr (a, given) ↦ inr (
        trusted,
        inr (
            inr (
              subst (Gives req.true_client_ip) (ground arith)
                (valid_ip_ok req.true_client_ip a given))),
      )
      | inl missing ↦ elim (Option-cases req.ip) [
        | inl none_known ↦ inl (ground arith)
        | inr (ip, known) ↦ elim (Bool-cases (ip == "")) [
          | inl empty ↦ inl (ground arith)
          | inr full ↦ inr (trusted, inl (ground arith))
        ]
      ]
    ]
  ]

  -- Outside of tests, a request that is let through and whose peer is no trusted proxy is
  -- taken to come from that peer, whatever its headers say; and the address of any other is
  -- the peer's, or, where the peer is a trusted proxy, the one that Express derived or a valid
  -- address that cf-connecting-ip or true-client-ip gives, less the blanks around it.
  pub client_ip_trusted :
      (req : EdgeRequest) (edge : EdgeMetadata)
      → env.node_env ≢ "test"
      → cloudflare_edge_middleware req ≡ ok edge
      → let peer = or_text req.remote_address "127.0.0.1" in
        ((env.is_trusted_proxy peer ≡ false)
          → (edge.client_ip ≡ peer) × (edge.is_cloudflare ≡ false))
        × ((edge.client_ip ≡ peer)
            ⊎ ((env.is_trusted_proxy peer ≡ true)
                × ((req.ip ≡ some edge.client_ip)
                    ⊎ (Gives req.cf_connecting_ip edge.client_ip
                        ⊎ Gives req.true_client_ip edge.client_ip))))
  unfolding cloudflare_edge_middleware get_socket_peer_address of_untrusted
  client_ip_trusted req edge outside passed =
      let peer = or_text req.remote_address "127.0.0.1" in
      elim (Bool-cases (env.is_trusted_proxy peer)) [
        | inr foreign ↦ (
          λ untrusted. (
            ground (arith, eq_iff env.node_env "test"),
            ground (arith, eq_iff env.node_env "test"),
          ),
          inl (ground (arith, eq_iff env.node_env "test")),
        )
        | inl trusted ↦ (
          λ untrusted. (absurd (ground arith), absurd (ground arith)),
          trusted_ip req peer edge trusted (ground (arith, eq_iff env.node_env "test")),
        )
      ]

  -- In production, where a secret of the origin is configured, a request is let through only with
  -- that secret.
  pub origin_checked :
      (req : EdgeRequest) (edge : EdgeMetadata) (secret : String)
      → env.node_env ≡ "production"
      → env.cloudflare_origin_pull_secret ≡ some secret
      → secret ≢ ""
      → cloudflare_edge_middleware req ≡ ok edge
      → req.x_origin_verify_secret ≡ some secret
  unfolding cloudflare_edge_middleware
  origin_checked req edge secret production configured full passed =
      elim (Option-cases req.x_origin_verify_secret) [
        | inl absent ↦ absurd (ground (arith, eq_iff secret "", eq_iff env.node_env "production"))
        | inr (value, given) ↦
            ground (arith, eq_iff secret "", eq_iff env.node_env "production", eq_iff value secret)
      ]
