-- ===== src/Traefik/Static/Catalogs.antt =====
-- uberbase/pkg/traefik/staticconfig.go: the catalogs of services. The structs have no names in Go; here each is
-- named for the path that leads to it. With each record goes the zero value of Go.
use uberbase.Common.{String, Bool, false, List, []}
use uberbase.Common.Int.{ℤ, pos}

pub record StaticProvidersConsulCatalogEndpointTls : Type 0 where
  pub ca : String
  pub cert : String
  pub key : String
  pub insecure_skip_verify : Bool

unfoldable pub zero_providers_consul_catalog_endpoint_tls : StaticProvidersConsulCatalogEndpointTls
zero_providers_consul_catalog_endpoint_tls = record {
  ca = "";
  cert = "";
  key = "";
  insecure_skip_verify = false;
}

pub record StaticProvidersConsulCatalogEndpointHttpAuth : Type 0 where
  pub username : String
  pub password : String

unfoldable pub zero_providers_consul_catalog_endpoint_http_auth :
    StaticProvidersConsulCatalogEndpointHttpAuth
zero_providers_consul_catalog_endpoint_http_auth = record { username = ""; password = "" }

pub record StaticProvidersConsulCatalogEndpoint : Type 0 where
  pub address : String
  pub scheme : String
  pub datacenter : String
  pub token : String
  pub tls : StaticProvidersConsulCatalogEndpointTls
  pub http_auth : StaticProvidersConsulCatalogEndpointHttpAuth
  pub endpoint_wait_time : String

unfoldable pub zero_providers_consul_catalog_endpoint : StaticProvidersConsulCatalogEndpoint
zero_providers_consul_catalog_endpoint = record {
  address = "";
  scheme = "";
  datacenter = "";
  token = "";
  tls = zero_providers_consul_catalog_endpoint_tls;
  http_auth = zero_providers_consul_catalog_endpoint_http_auth;
  endpoint_wait_time = "";
}

pub record StaticProvidersConsulCatalog : Type 0 where
  pub constraints : String
  pub endpoint : StaticProvidersConsulCatalogEndpoint
  pub prefix : String
  pub refresh_interval : String
  pub require_consistent : Bool
  pub stale : Bool
  pub cache : Bool
  pub exposed_by_default : Bool
  pub default_rule : String
  pub connect_aware : Bool
  pub connect_by_default : Bool
  pub service_name : String
  pub watch : Bool
  pub strict_checks : List String
  pub namespaces : List String

unfoldable pub zero_providers_consul_catalog : StaticProvidersConsulCatalog
zero_providers_consul_catalog = record {
  constraints = "";
  endpoint = zero_providers_consul_catalog_endpoint;
  prefix = "";
  refresh_interval = "";
  require_consistent = false;
  stale = false;
  cache = false;
  exposed_by_default = false;
  default_rule = "";
  connect_aware = false;
  connect_by_default = false;
  service_name = "";
  watch = false;
  strict_checks = [];
  namespaces = [];
}

pub record StaticProvidersNomadEndpointTls : Type 0 where
  pub ca : String
  pub cert : String
  pub key : String
  pub insecure_skip_verify : Bool

unfoldable pub zero_providers_nomad_endpoint_tls : StaticProvidersNomadEndpointTls
zero_providers_nomad_endpoint_tls = record {
  ca = "";
  cert = "";
  key = "";
  insecure_skip_verify = false;
}

pub record StaticProvidersNomadEndpoint : Type 0 where
  pub address : String
  pub region : String
  pub token : String
  pub tls : StaticProvidersNomadEndpointTls
  pub endpoint_wait_time : String

unfoldable pub zero_providers_nomad_endpoint : StaticProvidersNomadEndpoint
zero_providers_nomad_endpoint = record {
  address = "";
  region = "";
  token = "";
  tls = zero_providers_nomad_endpoint_tls;
  endpoint_wait_time = "";
}

pub record StaticProvidersNomad : Type 0 where
  pub default_rule : String
  pub constraints : String
  pub endpoint : StaticProvidersNomadEndpoint
  pub prefix : String
  pub stale : Bool
  pub exposed_by_default : Bool
  pub refresh_interval : String
  pub allow_empty_services : Bool
  pub watch : Bool
  pub throttle_duration : String
  pub namespaces : List String

unfoldable pub zero_providers_nomad : StaticProvidersNomad
zero_providers_nomad = record {
  default_rule = "";
  constraints = "";
  endpoint = zero_providers_nomad_endpoint;
  prefix = "";
  stale = false;
  exposed_by_default = false;
  refresh_interval = "";
  allow_empty_services = false;
  watch = false;
  throttle_duration = "";
  namespaces = [];
}

pub record StaticProvidersEcs : Type 0 where
  pub constraints : String
  pub exposed_by_default : Bool
  pub refresh_seconds : ℤ
  pub default_rule : String
  pub clusters : List String
  pub auto_discover_clusters : Bool
  pub healthy_tasks_only : Bool
  pub ecs_anywhere : Bool
  pub region : String
  pub access_key_id : String
  pub secret_access_key : String

unfoldable pub zero_providers_ecs : StaticProvidersEcs
zero_providers_ecs = record {
  constraints = "";
  exposed_by_default = false;
  refresh_seconds = pos 0;
  default_rule = "";
  clusters = [];
  auto_discover_clusters = false;
  healthy_tasks_only = false;
  ecs_anywhere = false;
  region = "";
  access_key_id = "";
  secret_access_key = "";
}
