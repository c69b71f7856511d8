-- ===== src/Traefik/Dynamic/Udp.antt =====
-- uberbase/pkg/traefik/dynamicconfig.go: the UDP section. A struct without a name has one here for
-- the path that leads to it.
use uberbase.Common.{String, Option, List}
use uberbase.Common.Int.{ℤ}
use uberbase.Common.Dict.{Dict}

pub record UdpConfigurationRouters : Type 0 where
  pub entry_points : List String
  pub service : String

pub record UdpConfigurationServicesLoadBalancerServers : Type 0 where
  pub address : String

pub record UdpConfigurationServicesLoadBalancer : Type 0 where
  pub servers : List UdpConfigurationServicesLoadBalancerServers

pub record UdpConfigurationServicesWeightedServices : Type 0 where
  pub name : String
  pub weight : ℤ

pub record UdpConfigurationServicesWeighted : Type 0 where
  pub services : List UdpConfigurationServicesWeightedServices

pub record UdpConfigurationServices : Type 0 where
  pub load_balancer : Option UdpConfigurationServicesLoadBalancer
  pub weighted : Option UdpConfigurationServicesWeighted

pub record UdpConfiguration : Type 0 where
  pub routers : Dict UdpConfigurationRouters
  pub services : Dict UdpConfigurationServices
