-- ===== src/Traefik/Static/Providers.antt =====
-- uberbase/pkg/traefik/staticconfig.go: where the proxy reads its services from. The structs have no names in Go; here each is
-- named for the path that leads to it. With each record goes the zero value of Go.
use uberbase.Common.{String, Bool, false, []}
use uberbase.Common.Dict.{Dict}
use uberbase.Traefik.Static.Docker.{
  StaticProvidersDocker, zero_providers_docker, StaticProvidersSwarm, zero_providers_swarm,
}
use uberbase.Traefik.Static.Kubernetes.{
  StaticProvidersKubernetesIngress, zero_providers_kubernetes_ingress, StaticProvidersKubernetesCrd,
  zero_providers_kubernetes_crd, StaticProvidersKubernetesGateway,
  zero_providers_kubernetes_gateway,
}
use uberbase.Traefik.Static.Catalogs.{
  StaticProvidersConsulCatalog, zero_providers_consul_catalog, StaticProvidersNomad,
  zero_providers_nomad, StaticProvidersEcs, zero_providers_ecs,
}
use uberbase.Traefik.Static.Stores.{
  StaticProvidersConsul, zero_providers_consul, StaticProvidersEtcd, zero_providers_etcd,
  StaticProvidersZooKeeper, zero_providers_zoo_keeper, StaticProvidersRedis, zero_providers_redis,
}

pub record StaticProvidersFile : Type 0 where
  pub directory : String
  pub watch : Bool
  pub filename : String
  pub debug_log_generated_template : Bool

unfoldable pub zero_providers_file : StaticProvidersFile
zero_providers_file = record {
  directory = "";
  watch = false;
  filename = "";
  debug_log_generated_template = false;
}

pub record StaticProvidersRest : Type 0 where
  pub insecure : Bool

unfoldable pub zero_providers_rest : StaticProvidersRest
zero_providers_rest = record { insecure = false }

pub record StaticProvidersHttpTls : Type 0 where
  pub ca : String
  pub cert : String
  pub key : String
  pub insecure_skip_verify : Bool

unfoldable pub zero_providers_http_tls : StaticProvidersHttpTls
zero_providers_http_tls = record { ca = ""; cert = ""; key = ""; insecure_skip_verify = false }

pub record StaticProvidersHttp : Type 0 where
  pub endpoint : String
  pub poll_interval : String
  pub poll_timeout : String
  pub headers : Dict String
  pub tls : StaticProvidersHttpTls

unfoldable pub zero_providers_http : StaticProvidersHttp
zero_providers_http = record {
  endpoint = "";
  poll_interval = "";
  poll_timeout = "";
  headers = [];
  tls = zero_providers_http_tls;
}

pub record StaticProviders : Type 0 where
  pub providers_throttle_duration : String
  pub docker : StaticProvidersDocker
  pub swarm : StaticProvidersSwarm
  pub file : StaticProvidersFile
  pub kubernetes_ingress : StaticProvidersKubernetesIngress
  pub kubernetes_crd : StaticProvidersKubernetesCrd
  pub kubernetes_gateway : StaticProvidersKubernetesGateway
  pub rest : StaticProvidersRest
  pub consul_catalog : StaticProvidersConsulCatalog
  pub nomad : StaticProvidersNomad
  pub ecs : StaticProvidersEcs
  pub consul : StaticProvidersConsul
  pub etcd : StaticProvidersEtcd
  pub zoo_keeper : StaticProvidersZooKeeper
  pub redis : StaticProvidersRedis
  pub http : StaticProvidersHttp
  pub plugin : Dict (Dict String)

unfoldable pub zero_providers : StaticProviders
zero_providers = record {
  providers_throttle_duration = "";
  docker = zero_providers_docker;
  swarm = zero_providers_swarm;
  file = zero_providers_file;
  kubernetes_ingress = zero_providers_kubernetes_ingress;
  kubernetes_crd = zero_providers_kubernetes_crd;
  kubernetes_gateway = zero_providers_kubernetes_gateway;
  rest = zero_providers_rest;
  consul_catalog = zero_providers_consul_catalog;
  nomad = zero_providers_nomad;
  ecs = zero_providers_ecs;
  consul = zero_providers_consul;
  etcd = zero_providers_etcd;
  zoo_keeper = zero_providers_zoo_keeper;
  redis = zero_providers_redis;
  http = zero_providers_http;
  plugin = [];
}
