-- ===== src/LoadBalancer/Traffic.antt =====
-- `TrafficManager` of uberbase/pkg/loadbalancer/traffic.go. The loops of Go over maps of structs
-- and over slices of structs assign to a copy of each entry: such an assignment is lost, and has
-- no counterpart here.
pub mod Laws
use uberbase.Common.{
  ℕ, String, ◌<>◌, ◌==◌, Bool, true, false, Option, none, some, List, [], ◌∷◌, if◌then◌else◌,
}
use uberbase.Common.Int.{ℤ}
use uberbase.Common.Text.{has_suffix}
use uberbase.Common.Dict.{Dict, insert}
use uberbase.Common.Effect.{
  here, nil_dereference, Result, ok, err, panicked, Io, pure, fail, crash, wrap, either, ◌>>=◌,
  ◌>>◌,
}
use uberbase.Traefik.{
  Files, dynamic_config_path, load_static_config, load_dynamic_configs, write_to_file,
}
use uberbase.Traefik.Static.{TraefikStaticConfiguration}
use uberbase.Traefik.Dynamic.{TraefikDynamicConfiguration, copy}
use uberbase.Traefik.Dynamic.Http.{TraefikHttpConfiguration}
use uberbase.Traefik.Dynamic.Services.{
  TraefikService, TraefikServiceLoadBalancer, TraefikServiceLoadBalancerServer,
}
use uberbase.Health.{wait_for_http_health_checks}
use uberbase.LoadBalancer.Url.{parse_url}

-- The fields of `TrafficManager` that change, beside the world.
pub record TrafficManager (W : Type 0) : Type 0 where
  pub static_config : Option TraefikStaticConfiguration
  pub dynamic_configs : Dict TraefikDynamicConfiguration
  pub world : W

abbrev pub deploy_suffix : String → String
deploy_suffix tag = tag <> "-deploy.yml"

-- `hasDeployConfigs`
unfoldable pub has_deploy_configs : String → Dict TraefikDynamicConfiguration → Bool
unfolding has_suffix
has_deploy_configs tag [] = false
has_deploy_configs tag ((file, config) ∷ configs) =
    if has_suffix file (deploy_suffix tag) then true else has_deploy_configs tag configs

-- `GetDynamicConfigs`
unfoldable pub get_dynamic_configs :
    Dict TraefikDynamicConfiguration → Dict TraefikDynamicConfiguration
unfolding has_suffix
get_dynamic_configs [] = []
get_dynamic_configs ((file, config) ∷ configs) =
    let rest = get_dynamic_configs configs in
    if has_suffix file "-deploy.yml" then rest else (file, config) ∷ rest

-- the innermost loop of `createDeployConfigs`: each server's address must parse
check_servers : List TraefikServiceLoadBalancerServer → Result (Unit {0})
unfolding parse_url
check_servers [] = ok tt
check_servers (server ∷ servers) = elim (parse_url server.url) [
  | ok _ ↦ check_servers servers
  | err e ↦ err ("failed to parse URL: " <> e)
  | panicked e ↦ panicked e
]

-- a service without a load balancer is a nil dereference
check_service : Option TraefikServiceLoadBalancer → Result (Unit {0})
unfolding check_servers
check_service none = panicked (here nil_dereference)
check_service (some balancer) = check_servers balancer.servers

check_services : Dict TraefikService → Result (Unit {0})
unfolding check_service
check_services [] = ok tt
check_services ((name, service) ∷ services) = elim (check_service service.load_balancer) [
  | ok _ ↦ check_services services
  | err e ↦ err e
  | panicked e ↦ panicked e
]

abbrev check_section : Option (Dict TraefikService) → Result (Unit {0})
unfolding check_services
check_section none = err "invalid configuration: HTTP or Services is nil"
check_section (some services) = check_services services

abbrev check_http : Option TraefikHttpConfiguration → Result (Unit {0})
unfolding check_services
check_http none = err "invalid configuration: HTTP or Services is nil"
check_http (some http) = check_section http.services

module _ {W : Type 0} (files : Files W) where
  -- the rest of a round of `createDeployConfigs`, for a file that is no deploy file of the tag
  create_deploy_config : String → TraefikDynamicConfiguration → Io W TraefikDynamicConfiguration
  unfolding copy check_services write_to_file
  create_deploy_config tag config = do
    λ w. (check_http config.http, w)
    wrap "failed to write tag config: "
        (write_to_file files (copy config) dynamic_config_path (deploy_suffix tag))
    pure (copy config)

  create_from :
      String
      → Dict TraefikDynamicConfiguration
      → Dict TraefikDynamicConfiguration
      → Io W (Dict TraefikDynamicConfiguration)
  unfolding create_deploy_config has_suffix insert
  create_from tag made [] = pure made
  create_from tag made ((file, config) ∷ configs) =
      if has_suffix file (deploy_suffix tag)
      then create_from tag made configs
      else (create_deploy_config tag config >>= λ tag_config.
          create_from tag (insert (tag <> ".yml") tag_config made) configs)

  -- `createDeployConfigs`
  unfoldable pub create_deploy_configs :
      String → Dict TraefikDynamicConfiguration → Io W (Dict TraefikDynamicConfiguration)
  unfolding create_from
  create_deploy_configs tag configs = create_from tag [] configs

  -- `removeDynamicConfigs`; a failing removal is passed over
  unfoldable pub remove_dynamic_configs :
      String → Dict TraefikDynamicConfiguration → Io W (Unit {0})
  unfolding has_suffix
  remove_dynamic_configs tag [] = pure tt
  remove_dynamic_configs tag ((file, config) ∷ configs) =
      if has_suffix file (deploy_suffix tag)
      then (either (files.remove (dynamic_config_path <> file)) pure (λ _. pure tt)
          >> remove_dynamic_configs tag configs)
      else remove_dynamic_configs tag configs

  module _ (request : String → String → Dict String → Io W ℤ) (rounds : ℕ) where
    -- `waitForHealthy` and the `select` on its channel. The context is not cancelled within the ten
    -- seconds, in which `rounds` rounds of checks end.
    abbrev pub wait_on : Option TraefikHttpConfiguration → Io W Bool
    unfolding wait_for_http_health_checks
    wait_on none = crash nil_dereference
    wait_on (some http) =
        wait_for_http_health_checks request rounds
          (elim http.services [ none ↦ [] | some services ↦ services ])

    wait_for_each : Dict TraefikDynamicConfiguration → Io W (Unit {0})
    unfolding wait_for_http_health_checks
    wait_for_each [] = pure tt
    wait_for_each ((name, config) ∷ configs) = wait_on config.http >>= λ healthy.
        if healthy then wait_for_each configs else fail "timed out waiting for health"

    -- `Deploy` behind its guards. `updateRouters` assigns to copies only.
    route : String → String → Dict TraefikDynamicConfiguration → Io W (Unit {0})
    unfolding create_deploy_configs wait_for_each remove_dynamic_configs
    route tag old_tag configs = do
      made ← wrap "failed to create deploy config: " (create_deploy_configs tag configs)
      wait_for_each made
      remove_dynamic_configs old_tag configs

    -- `Deploy`, for a state that is not nil and has this tag
    unfoldable pub deploy : String → String → Io (TrafficManager W) (Unit {0})
    unfolding route has_deploy_configs
    deploy state_tag tag t =
        if tag == ""
        then (err "container tag cannot be empty", t)
        else if state_tag == tag
        then (ok tt, t)
        else if has_deploy_configs tag t.dynamic_configs
        then (err ("deploy config already exists for tag " <> tag), t)
        else (let (r, w) = route tag state_tag t.dynamic_configs t.world in
            (r, record t { world = w }))

  load_both : Io W (TraefikStaticConfiguration × Dict TraefikDynamicConfiguration)
  unfolding load_static_config load_dynamic_configs
  load_both = wrap "failed to load static config: " (load_static_config files) >>= λ fixed.
      wrap "failed to load dynamic configs: " (load_dynamic_configs files) >>= λ dynamic w.
      (ok (fixed, dynamic), w)

  keep_both :
      TrafficManager W
      → Result (TraefikStaticConfiguration × Dict TraefikDynamicConfiguration)
      → W
      → Result (Unit {0}) × TrafficManager W
  keep_both t (ok (fixed, dynamic)) w =
      (ok tt, record { static_config = some fixed; dynamic_configs = dynamic; world = w })
  keep_both t (err e) w = (err e, record t { world = w })
  keep_both t (panicked e) w = (panicked e, record t { world = w })

  -- `Load` of the manager
  unfoldable pub load : Io (TrafficManager W) (Unit {0})
  unfolding load_both keep_both
  load t = let (r, w) = load_both t.world in keep_both t r w
