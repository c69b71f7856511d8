-- ===== src/Traefik/Static.antt =====
-- uberbase/pkg/traefik/staticconfig.go: the static configuration file of Traefik.
pub mod Transport
pub mod EntryPoints
pub mod Docker
pub mod Providers
pub mod Kubernetes
pub mod Catalogs
pub mod Stores
pub mod Rest
pub mod Metrics
pub mod Logs
pub mod AccessLogs
pub mod Tracing
pub mod Certificates
use uberbase.Common.{[]}
use uberbase.Common.Dict.{Dict}
use Transport.{
  StaticGlobal, zero_global, StaticServersTransport, zero_servers_transport,
  StaticTcpServersTransport, zero_tcp_servers_transport,
}
use EntryPoints.{StaticEntryPoints}
use Providers.{StaticProviders, zero_providers}
use Rest.{
  StaticApi, zero_api, StaticPing, zero_ping, StaticHostResolver, zero_host_resolver,
  StaticExperimental, zero_experimental, StaticCore, zero_core, StaticSpiffe, zero_spiffe,
}
use Metrics.{StaticMetrics, zero_metrics}
use Logs.{StaticLog, zero_log}
use AccessLogs.{StaticAccessLog, zero_access_log}
use Tracing.{StaticTracing, zero_tracing}
use Certificates.{StaticCertificatesResolvers}

pub record TraefikStaticConfiguration : Type 0 where
  pub global : StaticGlobal
  pub servers_transport : StaticServersTransport
  pub tcp_servers_transport : StaticTcpServersTransport
  pub entry_points : Dict StaticEntryPoints
  pub providers : StaticProviders
  pub api : StaticApi
  pub metrics : StaticMetrics
  pub ping : StaticPing
  pub log : StaticLog
  pub access_log : StaticAccessLog
  pub tracing : StaticTracing
  pub host_resolver : StaticHostResolver
  pub certificates_resolvers : Dict StaticCertificatesResolvers
  pub experimental : StaticExperimental
  pub core : StaticCore
  pub spiffe : StaticSpiffe

unfoldable pub zero_static : TraefikStaticConfiguration
zero_static = record {
  global = zero_global;
  servers_transport = zero_servers_transport;
  tcp_servers_transport = zero_tcp_servers_transport;
  entry_points = [];
  providers = zero_providers;
  api = zero_api;
  metrics = zero_metrics;
  ping = zero_ping;
  log = zero_log;
  access_log = zero_access_log;
  tracing = zero_tracing;
  host_resolver = zero_host_resolver;
  certificates_resolvers = [];
  experimental = zero_experimental;
  core = zero_core;
  spiffe = zero_spiffe;
}
