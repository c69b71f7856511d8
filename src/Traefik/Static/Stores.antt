-- ===== src/Traefik/Static/Stores.antt =====
-- uberbase/pkg/traefik/staticconfig.go: the stores of keys and values. The structs have no names in Go; here each is
-- named for the path that leads to it. With each record goes the zero value of Go.
use uberbase.Common.{String, Bool, false, List, []}
use uberbase.Common.Int.{ℤ, pos}

pub record StaticProvidersConsulTls : Type 0 where
  pub ca : String
  pub cert : String
  pub key : String
  pub insecure_skip_verify : Bool

unfoldable pub zero_providers_consul_tls : StaticProvidersConsulTls
zero_providers_consul_tls = record { ca = ""; cert = ""; key = ""; insecure_skip_verify = false }

pub record StaticProvidersConsul : Type 0 where
  pub root_key : String
  pub endpoints : List String
  pub token : String
  pub tls : StaticProvidersConsulTls
  pub namespaces : List String

unfoldable pub zero_providers_consul : StaticProvidersConsul
zero_providers_consul = record {
  root_key = "";
  endpoints = [];
  token = "";
  tls = zero_providers_consul_tls;
  namespaces = [];
}

pub record StaticProvidersEtcdTls : Type 0 where
  pub ca : String
  pub cert : String
  pub key : String
  pub insecure_skip_verify : Bool

unfoldable pub zero_providers_etcd_tls : StaticProvidersEtcdTls
zero_providers_etcd_tls = record { ca = ""; cert = ""; key = ""; insecure_skip_verify = false }

pub record StaticProvidersEtcd : Type 0 where
  pub root_key : String
  pub endpoints : List String
  pub tls : StaticProvidersEtcdTls
  pub username : String
  pub password : String

unfoldable pub zero_providers_etcd : StaticProvidersEtcd
zero_providers_etcd = record {
  root_key = "";
  endpoints = [];
  tls = zero_providers_etcd_tls;
  username = "";
  password = "";
}

pub record StaticProvidersZooKeeper : Type 0 where
  pub root_key : String
  pub endpoints : List String
  pub username : String
  pub password : String

unfoldable pub zero_providers_zoo_keeper : StaticProvidersZooKeeper
zero_providers_zoo_keeper = record { root_key = ""; endpoints = []; username = ""; password = "" }

pub record StaticProvidersRedisTls : Type 0 where
  pub ca : String
  pub cert : String
  pub key : String
  pub insecure_skip_verify : Bool

unfoldable pub zero_providers_redis_tls : StaticProvidersRedisTls
zero_providers_redis_tls = record { ca = ""; cert = ""; key = ""; insecure_skip_verify = false }

pub record StaticProvidersRedisSentinel : Type 0 where
  pub master_name : String
  pub username : String
  pub password : String
  pub latency_strategy : Bool
  pub random_strategy : Bool
  pub replica_strategy : Bool
  pub use_disconnected_replicas : Bool

unfoldable pub zero_providers_redis_sentinel : StaticProvidersRedisSentinel
zero_providers_redis_sentinel = record {
  master_name = "";
  username = "";
  password = "";
  latency_strategy = false;
  random_strategy = false;
  replica_strategy = false;
  use_disconnected_replicas = false;
}

pub record StaticProvidersRedis : Type 0 where
  pub root_key : String
  pub endpoints : List String
  pub tls : StaticProvidersRedisTls
  pub username : String
  pub password : String
  pub db : ℤ
  pub sentinel : StaticProvidersRedisSentinel

unfoldable pub zero_providers_redis : StaticProvidersRedis
zero_providers_redis = record {
  root_key = "";
  endpoints = [];
  tls = zero_providers_redis_tls;
  username = "";
  password = "";
  db = pos 0;
  sentinel = zero_providers_redis_sentinel;
}
