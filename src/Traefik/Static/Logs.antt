-- ===== src/Traefik/Static/Logs.antt =====
-- uberbase/pkg/traefik/staticconfig.go: the log. The structs have no names in Go; here each is
-- named for the path that leads to it. With each record goes the zero value of Go.
use uberbase.Common.{String, Bool, false, []}
use uberbase.Common.Int.{ℤ, pos}
use uberbase.Common.Dict.{Dict}

pub record StaticLogOtlpGrpcTls : Type 0 where
  pub ca : String
  pub cert : String
  pub key : String
  pub insecure_skip_verify : Bool

unfoldable pub zero_log_otlp_grpc_tls : StaticLogOtlpGrpcTls
zero_log_otlp_grpc_tls = record { ca = ""; cert = ""; key = ""; insecure_skip_verify = false }

pub record StaticLogOtlpGrpc : Type 0 where
  pub endpoint : String
  pub insecure : Bool
  pub tls : StaticLogOtlpGrpcTls
  pub headers : Dict String

unfoldable pub zero_log_otlp_grpc : StaticLogOtlpGrpc
zero_log_otlp_grpc = record {
  endpoint = "";
  insecure = false;
  tls = zero_log_otlp_grpc_tls;
  headers = [];
}

pub record StaticLogOtlpHttpTls : Type 0 where
  pub ca : String
  pub cert : String
  pub key : String
  pub insecure_skip_verify : Bool

unfoldable pub zero_log_otlp_http_tls : StaticLogOtlpHttpTls
zero_log_otlp_http_tls = record { ca = ""; cert = ""; key = ""; insecure_skip_verify = false }

pub record StaticLogOtlpHttp : Type 0 where
  pub endpoint : String
  pub tls : StaticLogOtlpHttpTls
  pub headers : Dict String

unfoldable pub zero_log_otlp_http : StaticLogOtlpHttp
zero_log_otlp_http = record { endpoint = ""; tls = zero_log_otlp_http_tls; headers = [] }

pub record StaticLogOtlp : Type 0 where
  pub service_name : String
  pub resource_attributes : Dict String
  pub grpc : StaticLogOtlpGrpc
  pub http : StaticLogOtlpHttp

unfoldable pub zero_log_otlp : StaticLogOtlp
zero_log_otlp = record {
  service_name = "";
  resource_attributes = [];
  grpc = zero_log_otlp_grpc;
  http = zero_log_otlp_http;
}

pub record StaticLog : Type 0 where
  pub level : String
  pub format : String
  pub no_color : Bool
  pub file_path : String
  pub max_size : ℤ
  pub max_age : ℤ
  pub max_backups : ℤ
  pub compress : Bool
  pub otlp : StaticLogOtlp

unfoldable pub zero_log : StaticLog
zero_log = record {
  level = "";
  format = "";
  no_color = false;
  file_path = "";
  max_size = pos 0;
  max_age = pos 0;
  max_backups = pos 0;
  compress = false;
  otlp = zero_log_otlp;
}
