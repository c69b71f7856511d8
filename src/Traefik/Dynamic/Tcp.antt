-- ===== src/Traefik/Dynamic/Tcp.antt =====
-- uberbase/pkg/traefik/dynamicconfig.go: the TCP section. A struct without a name has one here for
-- the path that leads to it.
use uberbase.Common.{String, Bool, Option, List}
use uberbase.Common.Int.{ℤ}
use uberbase.Common.Dict.{Dict}

pub record TcpConfigurationRoutersTlsDomains : Type 0 where
  pub main : String
  pub sans : List String

pub record TcpConfigurationRoutersTls : Type 0 where
  pub passthrough : Bool
  pub options : String
  pub cert_resolver : String
  pub domains : List TcpConfigurationRoutersTlsDomains

pub record TcpConfigurationRouters : Type 0 where
  pub entry_points : List String
  pub middlewares : List String
  pub service : String
  pub rule : String
  pub rule_syntax : String
  pub priority : ℤ
  pub tls : TcpConfigurationRoutersTls

pub record TcpConfigurationServicesLoadBalancerProxyProtocol : Type 0 where
  pub version : ℤ

pub record TcpConfigurationServicesLoadBalancerServers : Type 0 where
  pub address : String
  pub tls : Bool

pub record TcpConfigurationServicesLoadBalancer : Type 0 where
  pub proxy_protocol : TcpConfigurationServicesLoadBalancerProxyProtocol
  pub servers : List TcpConfigurationServicesLoadBalancerServers
  pub servers_transport : String
  pub termination_delay : ℤ

pub record TcpConfigurationServicesWeightedServices : Type 0 where
  pub name : String
  pub weight : ℤ

pub record TcpConfigurationServicesWeighted : Type 0 where
  pub services : List TcpConfigurationServicesWeightedServices

pub record TcpConfigurationServices : Type 0 where
  pub load_balancer : Option TcpConfigurationServicesLoadBalancer
  pub weighted : Option TcpConfigurationServicesWeighted

pub record TcpConfigurationMiddlewaresIpAllowList : Type 0 where
  pub source_range : List String

pub record TcpConfigurationMiddlewaresIpWhiteList : Type 0 where
  pub source_range : List String

pub record TcpConfigurationMiddlewaresInFlightConn : Type 0 where
  pub amount : ℤ

pub record TcpConfigurationMiddlewares : Type 0 where
  pub ip_allow_list : Option TcpConfigurationMiddlewaresIpAllowList
  pub ip_white_list : Option TcpConfigurationMiddlewaresIpWhiteList
  pub in_flight_conn : Option TcpConfigurationMiddlewaresInFlightConn

pub record TcpConfigurationServersTransportsTlsCertificates : Type 0 where
  pub cert_file : String
  pub key_file : String

pub record TcpConfigurationServersTransportsTlsSpiffe : Type 0 where
  pub ids : List String
  pub trust_domain : String

pub record TcpConfigurationServersTransportsTls : Type 0 where
  pub server_name : String
  pub insecure_skip_verify : Bool
  pub root_cas : List String
  pub certificates : List TcpConfigurationServersTransportsTlsCertificates
  pub peer_cert_uri : String
  pub spiffe : TcpConfigurationServersTransportsTlsSpiffe

pub record TcpConfigurationServersTransports : Type 0 where
  pub dial_keep_alive : String
  pub dial_timeout : String
  pub termination_delay : String
  pub tls : TcpConfigurationServersTransportsTls

pub record TcpConfiguration : Type 0 where
  pub routers : Dict TcpConfigurationRouters
  pub services : Dict TcpConfigurationServices
  pub middlewares : Dict TcpConfigurationMiddlewares
  pub servers_transports : Dict TcpConfigurationServersTransports
