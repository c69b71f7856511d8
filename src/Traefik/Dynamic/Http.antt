-- ===== src/Traefik/Dynamic/Http.antt =====
-- uberbase/pkg/traefik/dynamicconfig.go: the HTTP section. A struct without a name has one here for
-- the path that leads to it.
-- The four maps may be nil, and the program tests one of them for that.
use uberbase.Common.{String, Bool, Option, List}
use uberbase.Common.Int.{ℤ}
use uberbase.Common.Dict.{Dict}
use uberbase.Traefik.Dynamic.Services.{TraefikRouter, TraefikService}
use uberbase.Traefik.Dynamic.Middlewares.{HttpMiddleware}

pub record HttpServersTransportCertificates : Type 0 where
  pub cert_file : String
  pub key_file : String

pub record HttpServersTransportForwardingTimeouts : Type 0 where
  pub dial_timeout : String
  pub response_header_timeout : String
  pub idle_conn_timeout : String
  pub read_idle_timeout : String
  pub ping_timeout : String

pub record HttpServersTransportSpiffe : Type 0 where
  pub ids : List String
  pub trust_domain : String

pub record HttpServersTransport : Type 0 where
  pub server_name : String
  pub insecure_skip_verify : Bool
  pub root_cas : List String
  pub certificates : List HttpServersTransportCertificates
  pub max_idle_conns_per_host : ℤ
  pub forwarding_timeouts : HttpServersTransportForwardingTimeouts
  pub disable_http2 : Bool
  pub peer_cert_uri : String
  pub spiffe : HttpServersTransportSpiffe

pub record TraefikHttpConfiguration : Type 0 where
  pub routers : Option (Dict TraefikRouter)
  pub services : Option (Dict TraefikService)
  pub middlewares : Option (Dict HttpMiddleware)
  pub servers_transports : Option (Dict HttpServersTransport)
