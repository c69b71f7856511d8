-- ===== src/Traefik/Static/EntryPoints.antt =====
-- uberbase/pkg/traefik/staticconfig.go: the ports on which the proxy listens. The structs have no names in Go; here each is
-- named for the path that leads to it. With each record goes the zero value of Go.
use uberbase.Common.{String, Bool, false, List, []}
use uberbase.Common.Int.{ℤ, pos}

pub record StaticEntryPointsTransportLifeCycle : Type 0 where
  pub request_accept_grace_timeout : String
  pub grace_time_out : String

unfoldable pub zero_entry_points_transport_life_cycle : StaticEntryPointsTransportLifeCycle
zero_entry_points_transport_life_cycle = record {
  request_accept_grace_timeout = "";
  grace_time_out = "";
}

pub record StaticEntryPointsTransportRespondingTimeouts : Type 0 where
  pub read_timeout : String
  pub write_timeout : String
  pub idle_timeout : String

unfoldable pub zero_entry_points_transport_responding_timeouts :
    StaticEntryPointsTransportRespondingTimeouts
zero_entry_points_transport_responding_timeouts = record {
  read_timeout = "";
  write_timeout = "";
  idle_timeout = "";
}

pub record StaticEntryPointsTransport : Type 0 where
  pub life_cycle : StaticEntryPointsTransportLifeCycle
  pub responding_timeouts : StaticEntryPointsTransportRespondingTimeouts
  pub keep_alive_max_time : String
  pub keep_alive_max_requests : ℤ

unfoldable pub zero_entry_points_transport : StaticEntryPointsTransport
zero_entry_points_transport = record {
  life_cycle = zero_entry_points_transport_life_cycle;
  responding_timeouts = zero_entry_points_transport_responding_timeouts;
  keep_alive_max_time = "";
  keep_alive_max_requests = pos 0;
}

pub record StaticEntryPointsProxyProtocol : Type 0 where
  pub insecure : Bool
  pub trusted_ips : List String

unfoldable pub zero_entry_points_proxy_protocol : StaticEntryPointsProxyProtocol
zero_entry_points_proxy_protocol = record { insecure = false; trusted_ips = [] }

pub record StaticEntryPointsForwardedHeaders : Type 0 where
  pub insecure : Bool
  pub trusted_ips : List String
  pub connection : List String

unfoldable pub zero_entry_points_forwarded_headers : StaticEntryPointsForwardedHeaders
zero_entry_points_forwarded_headers = record { insecure = false; trusted_ips = []; connection = [] }

pub record StaticEntryPointsHttpRedirectionsEntryPoint : Type 0 where
  pub to : String
  pub scheme : String
  pub permanent : Bool
  pub priority : ℤ

unfoldable pub zero_entry_points_http_redirections_entry_point :
    StaticEntryPointsHttpRedirectionsEntryPoint
zero_entry_points_http_redirections_entry_point = record {
  to = "";
  scheme = "";
  permanent = false;
  priority = pos 0;
}

pub record StaticEntryPointsHttpRedirections : Type 0 where
  pub entry_point : StaticEntryPointsHttpRedirectionsEntryPoint

unfoldable pub zero_entry_points_http_redirections : StaticEntryPointsHttpRedirections
zero_entry_points_http_redirections = record {
  entry_point = zero_entry_points_http_redirections_entry_point;
}

pub record StaticEntryPointsHttpTlsDomains : Type 0 where
  pub main : String
  pub sans : List String

unfoldable pub zero_entry_points_http_tls_domains : StaticEntryPointsHttpTlsDomains
zero_entry_points_http_tls_domains = record { main = ""; sans = [] }

pub record StaticEntryPointsHttpTls : Type 0 where
  pub options : String
  pub cert_resolver : String
  pub domains : List StaticEntryPointsHttpTlsDomains

unfoldable pub zero_entry_points_http_tls : StaticEntryPointsHttpTls
zero_entry_points_http_tls = record { options = ""; cert_resolver = ""; domains = [] }

pub record StaticEntryPointsHttp : Type 0 where
  pub redirections : StaticEntryPointsHttpRedirections
  pub middlewares : List String
  pub tls : StaticEntryPointsHttpTls
  pub encode_query_semicolons : Bool
  pub max_header_bytes : ℤ

unfoldable pub zero_entry_points_http : StaticEntryPointsHttp
zero_entry_points_http = record {
  redirections = zero_entry_points_http_redirections;
  middlewares = [];
  tls = zero_entry_points_http_tls;
  encode_query_semicolons = false;
  max_header_bytes = pos 0;
}

pub record StaticEntryPointsHttp2 : Type 0 where
  pub max_concurrent_streams : ℤ

unfoldable pub zero_entry_points_http2 : StaticEntryPointsHttp2
zero_entry_points_http2 = record { max_concurrent_streams = pos 0 }

pub record StaticEntryPointsHttp3 : Type 0 where
  pub advertised_port : ℤ

unfoldable pub zero_entry_points_http3 : StaticEntryPointsHttp3
zero_entry_points_http3 = record { advertised_port = pos 0 }

pub record StaticEntryPointsUdp : Type 0 where
  pub timeout : String

unfoldable pub zero_entry_points_udp : StaticEntryPointsUdp
zero_entry_points_udp = record { timeout = "" }

pub record StaticEntryPointsObservability : Type 0 where
  pub access_logs : Bool
  pub tracing : Bool
  pub metrics : Bool

unfoldable pub zero_entry_points_observability : StaticEntryPointsObservability
zero_entry_points_observability = record { access_logs = false; tracing = false; metrics = false }

pub record StaticEntryPoints : Type 0 where
  pub address : String
  pub allow_acme_by_pass : Bool
  pub reuse_port : Bool
  pub as_default : Bool
  pub transport : StaticEntryPointsTransport
  pub proxy_protocol : StaticEntryPointsProxyProtocol
  pub forwarded_headers : StaticEntryPointsForwardedHeaders
  pub http : StaticEntryPointsHttp
  pub http2 : StaticEntryPointsHttp2
  pub http3 : StaticEntryPointsHttp3
  pub udp : StaticEntryPointsUdp
  pub observability : StaticEntryPointsObservability

unfoldable pub zero_entry_points : StaticEntryPoints
zero_entry_points = record {
  address = "";
  allow_acme_by_pass = false;
  reuse_port = false;
  as_default = false;
  transport = zero_entry_points_transport;
  proxy_protocol = zero_entry_points_proxy_protocol;
  forwarded_headers = zero_entry_points_forwarded_headers;
  http = zero_entry_points_http;
  http2 = zero_entry_points_http2;
  http3 = zero_entry_points_http3;
  udp = zero_entry_points_udp;
  observability = zero_entry_points_observability;
}
