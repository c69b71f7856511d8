-- ===== src/Traefik/Dynamic/Services.antt =====
-- uberbase/pkg/traefik/dynamicconfig.go: services and routers over HTTP. A struct without a name has one here for
-- the path that leads to it.
use uberbase.Common.{String, Bool, Option, List}
use uberbase.Common.Int.{ℤ}
use uberbase.Common.Dict.{Dict}

pub record TraefikServiceFailover : Type 0 where
  pub service : String
  pub fallback : String
  pub health_check : Unit {0}

pub record TraefikServiceLoadBalancerServer : Type 0 where
  pub url : String
  pub weight : ℤ
  pub preserve_path : Bool

pub record TraefikServiceLoadBalancerStickyCookie : Type 0 where
  pub name : String
  pub secure : Bool
  pub http_only : Bool
  pub same_site : String
  pub max_age : ℤ
  pub path : String

pub record TraefikServiceLoadBalancerSticky : Type 0 where
  pub cookie : TraefikServiceLoadBalancerStickyCookie

pub record TraefikServiceLoadBalancerHealthCheck : Type 0 where
  pub scheme : String
  pub mode : String
  pub path : String
  pub method : String
  pub status : ℤ
  pub port : ℤ
  pub interval : String
  pub timeout : String
  pub hostname : String
  pub follow_redirects : Bool
  pub headers : Dict String

pub record TraefikServiceLoadBalancerResponseForwarding : Type 0 where
  pub flush_interval : String

pub record TraefikServiceLoadBalancer : Type 0 where
  pub sticky : TraefikServiceLoadBalancerSticky
  pub servers : List TraefikServiceLoadBalancerServer
  pub health_check : TraefikServiceLoadBalancerHealthCheck
  pub pass_host_header : Bool
  pub response_forwarding : TraefikServiceLoadBalancerResponseForwarding
  pub servers_transport : String

pub record TraefikServiceMirror : Type 0 where
  pub name : String
  pub percent : ℤ

pub record TraefikServiceMirroring : Type 0 where
  pub service : String
  pub mirror_body : Bool
  pub max_body_size : ℤ
  pub mirrors : List TraefikServiceMirror
  pub health_check : Unit {0}

pub record TraefikServiceWeightedService : Type 0 where
  pub name : String
  pub weight : ℤ

pub record TraefikServiceWeightedStickyCookie : Type 0 where
  pub name : String
  pub secure : Bool
  pub http_only : Bool
  pub same_site : String
  pub max_age : ℤ
  pub path : String

pub record TraefikServiceWeightedSticky : Type 0 where
  pub cookie : TraefikServiceWeightedStickyCookie

pub record TraefikServiceWeighted : Type 0 where
  pub services : List TraefikServiceWeightedService
  pub sticky : TraefikServiceWeightedSticky
  pub health_check : Unit {0}

pub record TraefikService : Type 0 where
  pub failover : Option TraefikServiceFailover
  pub load_balancer : Option TraefikServiceLoadBalancer
  pub mirroring : Option TraefikServiceMirroring
  pub weighted : Option TraefikServiceWeighted

pub record TraefikRouterTlsDomain : Type 0 where
  pub main : String
  pub sans : List String

pub record TraefikRouterTls : Type 0 where
  pub options : String
  pub cert_resolver : String
  pub domains : List TraefikRouterTlsDomain

pub record TraefikRouterObservability : Type 0 where
  pub access_logs : Bool
  pub tracing : Bool
  pub metrics : Bool

pub record TraefikRouter : Type 0 where
  pub entry_points : List String
  pub middlewares : List String
  pub service : String
  pub rule : String
  pub rule_syntax : String
  pub priority : ℤ
  pub tls : TraefikRouterTls
  pub observability : TraefikRouterObservability
