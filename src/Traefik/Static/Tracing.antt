-- ===== src/Traefik/Static/Tracing.antt =====
-- uberbase/pkg/traefik/staticconfig.go: the traces. The structs have no names in Go; here each is
-- named for the path that leads to it. With each record goes the zero value of Go.
use uberbase.Common.{String, Bool, false, List, []}
use uberbase.Common.Int.{ℤ, pos}
use uberbase.Common.Dict.{Dict}

pub record StaticTracingOtlpGrpcTls : Type 0 where
  pub ca : String
  pub cert : String
  pub key : String
  pub insecure_skip_verify : Bool

unfoldable pub zero_tracing_otlp_grpc_tls : StaticTracingOtlpGrpcTls
zero_tracing_otlp_grpc_tls = record { ca = ""; cert = ""; key = ""; insecure_skip_verify = false }

pub record StaticTracingOtlpGrpc : Type 0 where
  pub endpoint : String
  pub insecure : Bool
  pub tls : StaticTracingOtlpGrpcTls
  pub headers : Dict String

unfoldable pub zero_tracing_otlp_grpc : StaticTracingOtlpGrpc
zero_tracing_otlp_grpc = record {
  endpoint = "";
  insecure = false;
  tls = zero_tracing_otlp_grpc_tls;
  headers = [];
}

pub record StaticTracingOtlpHttpTls : Type 0 where
  pub ca : String
  pub cert : String
  pub key : String
  pub insecure_skip_verify : Bool

unfoldable pub zero_tracing_otlp_http_tls : StaticTracingOtlpHttpTls
zero_tracing_otlp_http_tls = record { ca = ""; cert = ""; key = ""; insecure_skip_verify = false }

pub record StaticTracingOtlpHttp : Type 0 where
  pub endpoint : String
  pub tls : StaticTracingOtlpHttpTls
  pub headers : Dict String

unfoldable pub zero_tracing_otlp_http : StaticTracingOtlpHttp
zero_tracing_otlp_http = record { endpoint = ""; tls = zero_tracing_otlp_http_tls; headers = [] }

pub record StaticTracingOtlp : Type 0 where
  pub grpc : StaticTracingOtlpGrpc
  pub http : StaticTracingOtlpHttp

unfoldable pub zero_tracing_otlp : StaticTracingOtlp
zero_tracing_otlp = record { grpc = zero_tracing_otlp_grpc; http = zero_tracing_otlp_http }

pub record StaticTracing : Type 0 where
  pub service_name : String
  pub resource_attributes : Dict String
  pub captured_request_headers : List String
  pub captured_response_headers : List String
  pub safe_query_params : List String
  pub sample_rate : ℤ
  pub add_internals : Bool
  pub otlp : StaticTracingOtlp
  pub global_attributes : Dict String

unfoldable pub zero_tracing : StaticTracing
zero_tracing = record {
  service_name = "";
  resource_attributes = [];
  captured_request_headers = [];
  captured_response_headers = [];
  safe_query_params = [];
  sample_rate = pos 0;
  add_internals = false;
  otlp = zero_tracing_otlp;
  global_attributes = [];
}
