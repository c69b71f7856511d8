-- ===== src/Traefik/Static/Metrics.antt =====
-- uberbase/pkg/traefik/staticconfig.go: the metrics. The structs have no names in Go; here each is
-- named for the path that leads to it. With each record goes the zero value of Go.
use uberbase.Common.{String, Bool, false, List, []}
use uberbase.Common.Int.{ℤ}
use uberbase.Common.Dict.{Dict}

pub record StaticMetricsPrometheus : Type 0 where
  pub buckets : List ℤ
  pub add_entry_points_labels : Bool
  pub add_routers_labels : Bool
  pub add_services_labels : Bool
  pub entry_point : String
  pub manual_routing : Bool
  pub header_labels : Dict String

unfoldable pub zero_metrics_prometheus : StaticMetricsPrometheus
zero_metrics_prometheus = record {
  buckets = [];
  add_entry_points_labels = false;
  add_routers_labels = false;
  add_services_labels = false;
  entry_point = "";
  manual_routing = false;
  header_labels = [];
}

pub record StaticMetricsDatadog : Type 0 where
  pub address : String
  pub push_interval : String
  pub add_entry_points_labels : Bool
  pub add_routers_labels : Bool
  pub add_services_labels : Bool
  pub prefix : String

unfoldable pub zero_metrics_datadog : StaticMetricsDatadog
zero_metrics_datadog = record {
  address = "";
  push_interval = "";
  add_entry_points_labels = false;
  add_routers_labels = false;
  add_services_labels = false;
  prefix = "";
}

pub record StaticMetricsStatsD : Type 0 where
  pub address : String
  pub push_interval : String
  pub add_entry_points_labels : Bool
  pub add_routers_labels : Bool
  pub add_services_labels : Bool
  pub prefix : String

unfoldable pub zero_metrics_stats_d : StaticMetricsStatsD
zero_metrics_stats_d = record {
  address = "";
  push_interval = "";
  add_entry_points_labels = false;
  add_routers_labels = false;
  add_services_labels = false;
  prefix = "";
}

pub record StaticMetricsInfluxDb2 : Type 0 where
  pub address : String
  pub token : String
  pub push_interval : String
  pub org : String
  pub bucket : String
  pub add_entry_points_labels : Bool
  pub add_routers_labels : Bool
  pub add_services_labels : Bool
  pub additional_labels : Dict String

unfoldable pub zero_metrics_influx_db2 : StaticMetricsInfluxDb2
zero_metrics_influx_db2 = record {
  address = "";
  token = "";
  push_interval = "";
  org = "";
  bucket = "";
  add_entry_points_labels = false;
  add_routers_labels = false;
  add_services_labels = false;
  additional_labels = [];
}

pub record StaticMetricsOtlpGrpcTls : Type 0 where
  pub ca : String
  pub cert : String
  pub key : String
  pub insecure_skip_verify : Bool

unfoldable pub zero_metrics_otlp_grpc_tls : StaticMetricsOtlpGrpcTls
zero_metrics_otlp_grpc_tls = record { ca = ""; cert = ""; key = ""; insecure_skip_verify = false }

pub record StaticMetricsOtlpGrpc : Type 0 where
  pub endpoint : String
  pub insecure : Bool
  pub tls : StaticMetricsOtlpGrpcTls
  pub headers : Dict String

unfoldable pub zero_metrics_otlp_grpc : StaticMetricsOtlpGrpc
zero_metrics_otlp_grpc = record {
  endpoint = "";
  insecure = false;
  tls = zero_metrics_otlp_grpc_tls;
  headers = [];
}

pub record StaticMetricsOtlpHttpTls : Type 0 where
  pub ca : String
  pub cert : String
  pub key : String
  pub insecure_skip_verify : Bool

unfoldable pub zero_metrics_otlp_http_tls : StaticMetricsOtlpHttpTls
zero_metrics_otlp_http_tls = record { ca = ""; cert = ""; key = ""; insecure_skip_verify = false }

pub record StaticMetricsOtlpHttp : Type 0 where
  pub endpoint : String
  pub tls : StaticMetricsOtlpHttpTls
  pub headers : Dict String

unfoldable pub zero_metrics_otlp_http : StaticMetricsOtlpHttp
zero_metrics_otlp_http = record { endpoint = ""; tls = zero_metrics_otlp_http_tls; headers = [] }

pub record StaticMetricsOtlp : Type 0 where
  pub grpc : StaticMetricsOtlpGrpc
  pub http : StaticMetricsOtlpHttp
  pub add_entry_points_labels : Bool
  pub add_routers_labels : Bool
  pub add_services_labels : Bool
  pub explicit_boundaries : List ℤ
  pub push_interval : String
  pub service_name : String

unfoldable pub zero_metrics_otlp : StaticMetricsOtlp
zero_metrics_otlp = record {
  grpc = zero_metrics_otlp_grpc;
  http = zero_metrics_otlp_http;
  add_entry_points_labels = false;
  add_routers_labels = false;
  add_services_labels = false;
  explicit_boundaries = [];
  push_interval = "";
  service_name = "";
}

pub record StaticMetrics : Type 0 where
  pub add_internals : Bool
  pub prometheus : StaticMetricsPrometheus
  pub datadog : StaticMetricsDatadog
  pub stats_d : StaticMetricsStatsD
  pub influx_db2 : StaticMetricsInfluxDb2
  pub otlp : StaticMetricsOtlp

unfoldable pub zero_metrics : StaticMetrics
zero_metrics = record {
  add_internals = false;
  prometheus = zero_metrics_prometheus;
  datadog = zero_metrics_datadog;
  stats_d = zero_metrics_stats_d;
  influx_db2 = zero_metrics_influx_db2;
  otlp = zero_metrics_otlp;
}
