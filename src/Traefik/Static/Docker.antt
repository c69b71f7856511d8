-- ===== src/Traefik/Static/Docker.antt =====
-- uberbase/pkg/traefik/staticconfig.go: Docker and Swarm as providers. The structs have no names in Go; here each is
-- named for the path that leads to it. With each record goes the zero value of Go.
use uberbase.Common.{String, Bool, false}

pub record StaticProvidersDockerTls : Type 0 where
  pub ca : String
  pub cert : String
  pub key : String
  pub insecure_skip_verify : Bool

unfoldable pub zero_providers_docker_tls : StaticProvidersDockerTls
zero_providers_docker_tls = record { ca = ""; cert = ""; key = ""; insecure_skip_verify = false }

pub record StaticProvidersDocker : Type 0 where
  pub exposed_by_default : Bool
  pub constraints : String
  pub allow_empty_services : Bool
  pub network : String
  pub use_bind_port_ip : Bool
  pub watch : Bool
  pub default_rule : String
  pub username : String
  pub password : String
  pub endpoint : String
  pub tls : StaticProvidersDockerTls
  pub http_client_timeout : String

unfoldable pub zero_providers_docker : StaticProvidersDocker
zero_providers_docker = record {
  exposed_by_default = false;
  constraints = "";
  allow_empty_services = false;
  network = "";
  use_bind_port_ip = false;
  watch = false;
  default_rule = "";
  username = "";
  password = "";
  endpoint = "";
  tls = zero_providers_docker_tls;
  http_client_timeout = "";
}

pub record StaticProvidersSwarmTls : Type 0 where
  pub ca : String
  pub cert : String
  pub key : String
  pub insecure_skip_verify : Bool

unfoldable pub zero_providers_swarm_tls : StaticProvidersSwarmTls
zero_providers_swarm_tls = record { ca = ""; cert = ""; key = ""; insecure_skip_verify = false }

pub record StaticProvidersSwarm : Type 0 where
  pub exposed_by_default : Bool
  pub constraints : String
  pub allow_empty_services : Bool
  pub network : String
  pub use_bind_port_ip : Bool
  pub watch : Bool
  pub default_rule : String
  pub username : String
  pub password : String
  pub endpoint : String
  pub tls : StaticProvidersSwarmTls
  pub http_client_timeout : String
  pub refresh_seconds : String

unfoldable pub zero_providers_swarm : StaticProvidersSwarm
zero_providers_swarm = record {
  exposed_by_default = false;
  constraints = "";
  allow_empty_services = false;
  network = "";
  use_bind_port_ip = false;
  watch = false;
  default_rule = "";
  username = "";
  password = "";
  endpoint = "";
  tls = zero_providers_swarm_tls;
  http_client_timeout = "";
  refresh_seconds = "";
}
