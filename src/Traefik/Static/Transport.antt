-- ===== src/Traefik/Static/Transport.antt =====
-- uberbase/pkg/traefik/staticconfig.go: the connections to the servers. The structs have no names in Go; here each is
-- named for the path that leads to it. With each record goes the zero value of Go.
use uberbase.Common.{String, Bool, false, List, []}
use uberbase.Common.Int.{ℤ, pos}

pub record StaticGlobal : Type 0 where
  pub check_new_version : Bool
  pub send_anonymous_usage : Bool

unfoldable pub zero_global : StaticGlobal
zero_global = record { check_new_version = false; send_anonymous_usage = false }

pub record StaticServersTransportForwardingTimeouts : Type 0 where
  pub dial_timeout : String
  pub response_header_timeout : String
  pub idle_conn_timeout : String

unfoldable pub zero_servers_transport_forwarding_timeouts : StaticServersTransportForwardingTimeouts
zero_servers_transport_forwarding_timeouts = record {
  dial_timeout = "";
  response_header_timeout = "";
  idle_conn_timeout = "";
}

pub record StaticServersTransportSpiffe : Type 0 where
  pub ids : List String
  pub trust_domain : String

unfoldable pub zero_servers_transport_spiffe : StaticServersTransportSpiffe
zero_servers_transport_spiffe = record { ids = []; trust_domain = "" }

pub record StaticServersTransport : Type 0 where
  pub insecure_skip_verify : Bool
  pub root_cas : List String
  pub max_idle_conns_per_host : ℤ
  pub forwarding_timeouts : StaticServersTransportForwardingTimeouts
  pub spiffe : StaticServersTransportSpiffe

unfoldable pub zero_servers_transport : StaticServersTransport
zero_servers_transport = record {
  insecure_skip_verify = false;
  root_cas = [];
  max_idle_conns_per_host = pos 0;
  forwarding_timeouts = zero_servers_transport_forwarding_timeouts;
  spiffe = zero_servers_transport_spiffe;
}

pub record StaticTcpServersTransportTlsSpiffe : Type 0 where
  pub ids : List String
  pub trust_domain : String

unfoldable pub zero_tcp_servers_transport_tls_spiffe : StaticTcpServersTransportTlsSpiffe
zero_tcp_servers_transport_tls_spiffe = record { ids = []; trust_domain = "" }

pub record StaticTcpServersTransportTls : Type 0 where
  pub insecure_skip_verify : Bool
  pub root_cas : List String
  pub spiffe : StaticTcpServersTransportTlsSpiffe

unfoldable pub zero_tcp_servers_transport_tls : StaticTcpServersTransportTls
zero_tcp_servers_transport_tls = record {
  insecure_skip_verify = false;
  root_cas = [];
  spiffe = zero_tcp_servers_transport_tls_spiffe;
}

pub record StaticTcpServersTransport : Type 0 where
  pub dial_keep_alive : String
  pub dial_timeout : String
  pub termination_delay : String
  pub tls : StaticTcpServersTransportTls

unfoldable pub zero_tcp_servers_transport : StaticTcpServersTransport
zero_tcp_servers_transport = record {
  dial_keep_alive = "";
  dial_timeout = "";
  termination_delay = "";
  tls = zero_tcp_servers_transport_tls;
}
