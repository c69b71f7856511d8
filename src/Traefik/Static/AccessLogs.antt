-- ===== src/Traefik/Static/AccessLogs.antt =====
-- uberbase/pkg/traefik/staticconfig.go: the log of requests. The structs have no names in Go; here each is
-- named for the path that leads to it. With each record goes the zero value of Go.
use uberbase.Common.{String, Bool, false, List, []}
use uberbase.Common.Int.{ℤ, pos}
use uberbase.Common.Dict.{Dict}

pub record StaticAccessLogFilters : Type 0 where
  pub status_codes : List String
  pub retry_attempts : Bool
  pub min_duration : String

unfoldable pub zero_access_log_filters : StaticAccessLogFilters
zero_access_log_filters = record { status_codes = []; retry_attempts = false; min_duration = "" }

pub record StaticAccessLogFieldsHeaders : Type 0 where
  pub default_mode : String
  pub names : Dict String

unfoldable pub zero_access_log_fields_headers : StaticAccessLogFieldsHeaders
zero_access_log_fields_headers = record { default_mode = ""; names = [] }

pub record StaticAccessLogFields : Type 0 where
  pub default_mode : String
  pub names : Dict String
  pub headers : StaticAccessLogFieldsHeaders

unfoldable pub zero_access_log_fields : StaticAccessLogFields
zero_access_log_fields = record {
  default_mode = "";
  names = [];
  headers = zero_access_log_fields_headers;
}

pub record StaticAccessLogOtlpGrpcTls : Type 0 where
  pub ca : String
  pub cert : String
  pub key : String
  pub insecure_skip_verify : Bool

unfoldable pub zero_access_log_otlp_grpc_tls : StaticAccessLogOtlpGrpcTls
zero_access_log_otlp_grpc_tls = record {
  ca = "";
  cert = "";
  key = "";
  insecure_skip_verify = false;
}

pub record StaticAccessLogOtlpGrpc : Type 0 where
  pub endpoint : String
  pub insecure : Bool
  pub tls : StaticAccessLogOtlpGrpcTls
  pub headers : Dict String

unfoldable pub zero_access_log_otlp_grpc : StaticAccessLogOtlpGrpc
zero_access_log_otlp_grpc = record {
  endpoint = "";
  insecure = false;
  tls = zero_access_log_otlp_grpc_tls;
  headers = [];
}

pub record StaticAccessLogOtlpHttpTls : Type 0 where
  pub ca : String
  pub cert : String
  pub key : String
  pub insecure_skip_verify : Bool

unfoldable pub zero_access_log_otlp_http_tls : StaticAccessLogOtlpHttpTls
zero_access_log_otlp_http_tls = record {
  ca = "";
  cert = "";
  key = "";
  insecure_skip_verify = false;
}

pub record StaticAccessLogOtlpHttp : Type 0 where
  pub endpoint : String
  pub tls : StaticAccessLogOtlpHttpTls
  pub headers : Dict String

unfoldable pub zero_access_log_otlp_http : StaticAccessLogOtlpHttp
zero_access_log_otlp_http = record {
  endpoint = "";
  tls = zero_access_log_otlp_http_tls;
  headers = [];
}

pub record StaticAccessLogOtlp : Type 0 where
  pub service_name : String
  pub resource_attributes : Dict String
  pub grpc : StaticAccessLogOtlpGrpc
  pub http : StaticAccessLogOtlpHttp

unfoldable pub zero_access_log_otlp : StaticAccessLogOtlp
zero_access_log_otlp = record {
  service_name = "";
  resource_attributes = [];
  grpc = zero_access_log_otlp_grpc;
  http = zero_access_log_otlp_http;
}

pub record StaticAccessLog : Type 0 where
  pub file_path : String
  pub format : String
  pub filters : StaticAccessLogFilters
  pub fields : StaticAccessLogFields
  pub buffering_size : ℤ
  pub add_internals : Bool
  pub otlp : StaticAccessLogOtlp

unfoldable pub zero_access_log : StaticAccessLog
zero_access_log = record {
  file_path = "";
  format = "";
  filters = zero_access_log_filters;
  fields = zero_access_log_fields;
  buffering_size = pos 0;
  add_internals = false;
  otlp = zero_access_log_otlp;
}
