-- ===== src/Tests/Border.antt =====
-- Requests at the edge.
use multi_tenant_project_man.Base.{String, true, some, none, ◌≡◌, ◌==◌, ◌↔◌, ◌≢◌, refl, ne_of_==}
use multi_tenant_project_man.Base.Error.{not_found}
use multi_tenant_project_man.Base.Monad.{Result, ok}
use multi_tenant_project_man.Edge.Errors.{error_handler, other_error, production_hides}
use multi_tenant_project_man.Edge.Platform.{
  PlatformRequest, require_platform_admin, configured_secret, Offers, platform_exact,
}
use multi_tenant_project_man.Edge.Proxy.{
  EdgeEnv, EdgeRequest, EdgeMetadata, cloudflare_edge_middleware, get_socket_peer_address,
  of_untrusted, client_ip_trusted, origin_checked,
}

abbrev env : EdgeEnv
env = record {
  node_env = "production";
  cloudflare_origin_pull_secret = some "origin";
  trim = λ s. s;
  is_ip = λ s. true;
  is_trusted_proxy = λ s. s == "127.0.0.1";
}

-- A client that claims to be another.
abbrev spoofed : EdgeRequest
spoofed = record {
  cf_ray = none;
  cf_connecting_ip = some "1.2.3.4";
  true_client_ip = none;
  cf_ipcountry = none;
  x_origin_verify_secret = some "origin";
  x_test_remote_addr = none;
  remote_address = some "9.9.9.9";
  ip = none;
}

abbrev seen : Result EdgeMetadata
seen = cloudflare_edge_middleware env "0" spoofed

abbrev edge : EdgeMetadata
edge = of_untrusted env "0" "9.9.9.9"

spoofed_passes : seen ≡ ok edge
unfolding cloudflare_edge_middleware get_socket_peer_address
spoofed_passes = refl

client_ip_trusted_example : edge.client_ip ≡ "9.9.9.9"
client_ip_trusted_example =
    ((client_ip_trusted env "0" spoofed edge (ne_of_== "production" "test" refl) spoofed_passes).0
      refl).0

origin_checked_example : spoofed.x_origin_verify_secret ≡ some "origin"
origin_checked_example =
    origin_checked env "0" spoofed edge "origin" refl refl (ne_of_== "origin" "" refl)
      spoofed_passes

abbrev trim : String → String
trim s = s

abbrev by_bearer : PlatformRequest
by_bearer = record {
  x_platform_secret = none;
  x_system_secret = none;
  x_platform_admin_secret = none;
  authorization = some "Bearer key";
}

platform_exact_example :
    (require_platform_admin trim "production" (some "key") by_bearer ≡ ok tt) ↔ (
      (configured_secret trim "production" (some "key") ≢ "")
      × Offers trim (configured_secret trim "production" (some "key")) by_bearer)
platform_exact_example = (platform_exact trim "production" (some "key") by_bearer).0

bearer_passes : require_platform_admin trim "production" (some "key") by_bearer ≡ ok tt
unfolding require_platform_admin
bearer_passes = refl

production_hides_example :
    error_handler "production" (other_error "at line 3")
    ≡ error_handler "production" (other_error "at line 4")
production_hides_example =
    (production_hides (not_found "NOT_FOUND") "P2010" "at line 3" "at line 4").0
