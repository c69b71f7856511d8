-- ===== src/Traefik/Static/Rest.antt =====
-- uberbase/pkg/traefik/staticconfig.go: the shorter sections. The structs have no names in Go; here each is
-- named for the path that leads to it. With each record goes the zero value of Go.
use uberbase.Common.{String, Bool, false, List, []}
use uberbase.Common.Int.{ℤ, pos}

pub record StaticApi : Type 0 where
  pub base_path : String
  pub insecure : Bool
  pub dashboard : Bool
  pub debug : Bool
  pub disable_dashboard_ad : Bool

unfoldable pub zero_api : StaticApi
zero_api = record {
  base_path = "";
  insecure = false;
  dashboard = false;
  debug = false;
  disable_dashboard_ad = false;
}

pub record StaticPing : Type 0 where
  pub entry_point : String
  pub manual_routing : Bool
  pub terminating_status_code : ℤ

unfoldable pub zero_ping : StaticPing
zero_ping = record { entry_point = ""; manual_routing = false; terminating_status_code = pos 0 }

pub record StaticHostResolver : Type 0 where
  pub cname_flattening : Bool
  pub resolv_config : String
  pub resolv_depth : ℤ

unfoldable pub zero_host_resolver : StaticHostResolver
zero_host_resolver = record { cname_flattening = false; resolv_config = ""; resolv_depth = pos 0 }

pub record StaticExperimentalPluginsSettings : Type 0 where
  pub envs : List String
  pub mounts : List String

unfoldable pub zero_experimental_plugins_settings : StaticExperimentalPluginsSettings
zero_experimental_plugins_settings = record { envs = []; mounts = [] }

pub record StaticExperimentalPlugins : Type 0 where
  pub module_name : String
  pub version : String
  pub settings : StaticExperimentalPluginsSettings

unfoldable pub zero_experimental_plugins : StaticExperimentalPlugins
zero_experimental_plugins = record {
  module_name = "";
  version = "";
  settings = zero_experimental_plugins_settings;
}

pub record StaticExperimentalLocalPluginsSettings : Type 0 where
  pub envs : List String
  pub mounts : List String

unfoldable pub zero_experimental_local_plugins_settings : StaticExperimentalLocalPluginsSettings
zero_experimental_local_plugins_settings = record { envs = []; mounts = [] }

pub record StaticExperimentalLocalPlugins : Type 0 where
  pub module_name : String
  pub settings : StaticExperimentalLocalPluginsSettings

unfoldable pub zero_experimental_local_plugins : StaticExperimentalLocalPlugins
zero_experimental_local_plugins = record {
  module_name = "";
  settings = zero_experimental_local_plugins_settings;
}

pub record StaticExperimentalFastProxy : Type 0 where
  pub debug : Bool

unfoldable pub zero_experimental_fast_proxy : StaticExperimentalFastProxy
zero_experimental_fast_proxy = record { debug = false }

pub record StaticExperimental : Type 0 where
  pub plugins : List StaticExperimentalPlugins
  pub local_plugins : List StaticExperimentalLocalPlugins
  pub abort_on_plugin_failure : Bool
  pub fast_proxy : StaticExperimentalFastProxy
  pub otlplogs : Bool
  pub kubernetes_gateway : Bool

unfoldable pub zero_experimental : StaticExperimental
zero_experimental = record {
  plugins = [];
  local_plugins = [];
  abort_on_plugin_failure = false;
  fast_proxy = zero_experimental_fast_proxy;
  otlplogs = false;
  kubernetes_gateway = false;
}

pub record StaticCore : Type 0 where
  pub default_rule_syntax : String

unfoldable pub zero_core : StaticCore
zero_core = record { default_rule_syntax = "" }

pub record StaticSpiffe : Type 0 where
  pub workload_api_addr : String

unfoldable pub zero_spiffe : StaticSpiffe
zero_spiffe = record { workload_api_addr = "" }
