-- ===== src/Examples.antt =====
-- Hosts, projects and states on which the theorems are tried.
mod Connection
mod Hosts
mod Images
mod States
mod Routing
mod Rounds
mod Commands
mod Logs
mod Deployment
mod Requests
use uberbase.Common.{String, ◌<>◌, List, [], ◌∷◌, none, some, true, false}
use uberbase.Common.Int.{pos}
use uberbase.Common.Dict.{Dict}
use uberbase.Common.Effect.{Result, ok, err, Io}
use uberbase.Traefik.{Files}
use uberbase.Traefik.Dynamic.{TraefikDynamicConfiguration}
use uberbase.Traefik.Dynamic.Services.{TraefikServiceLoadBalancer}
use uberbase.State.{ComposeServiceState, ComposeState, TraefikState, DeploymentState}
use uberbase.State.Manager.{Codec, Paths}
use uberbase.Containers.Override.{Overrides}
use uberbase.Containers.{BuildConfig, Service}

-- A host that notes its commands and lets each succeed with this output.
abbrev pub answering : String → String → Io (List String) String
answering output cmd seen = (ok output, cmd ∷ seen)

-- A service that is built from this repository, and one that is not.
abbrev pub api : Service
api = record {
  name = "api";
  image = "registry/api:old";
  hostname = "api";
  build = some (record { args = []; dockerfile = ""; context = "." });
}

abbrev pub db : Service
db = record { name = "db"; image = "postgres:16"; hostname = "db"; build = none }

abbrev pub api_state : ComposeServiceState
api_state = record {
  service_name = "api";
  container_name = "api-old";
  hostname = "api";
  image = "registry/api:old";
  tag = "old";
}

abbrev pub sections : ComposeState (Unit {0}) (Unit {0})
sections = record { services = ("api", api_state) ∷ []; volumes = []; networks = [] }

abbrev pub traffic_section : TraefikState
traffic_section = record { tag = "old"; configs = [] }

abbrev pub old : DeploymentState (Unit {0}) (Unit {0})
old = record { tag = "old"; compose = some sections; traefik = some traffic_section; lock = none }

-- a library that knows one text
abbrev pub one_text : Codec (Unit {0}) (Unit {0})
one_text = record { encode = λ state. ok "state"; decode = λ text. ok old }

abbrev pub slashes : Paths
slashes = record { join = λ dir name. dir <> ("/" <> name); dir = λ path. path }

abbrev pub overrides_for : String → Overrides
overrides_for tag =
    (
      "api",
      record {
        hostname = "api-" <> tag;
        image = "registry/api:" <> tag;
        name = "api-" <> tag;
        ref_name = "api";
      },
    )
    ∷ []

-- One service of the proxy, whose one server has a health check.
abbrev pub balancer : TraefikServiceLoadBalancer
balancer = record {
  sticky = record {
    cookie = record {
      name = "";
      secure = false;
      http_only = false;
      same_site = "";
      max_age = pos 0;
      path = "";
    };
  };
  servers = record { url = "http://api:80"; weight = pos 1; preserve_path = false } ∷ [];
  health_check = record {
    scheme = "";
    mode = "";
    path = "/health";
    method = "GET";
    status = pos 0;
    port = pos 0;
    interval = "";
    timeout = "";
    hostname = "";
    follow_redirects = false;
    headers = [];
  };
  pass_host_header = true;
  response_forwarding = record { flush_interval = "" };
  servers_transport = "";
}

abbrev pub web : TraefikDynamicConfiguration
web = record {
  http = some (record {
    routers = none;
    services = some (
        (
          "api",
          record {
            failover = none;
            load_balancer = some balancer;
            mirroring = none;
            weighted = none;
          },
        )
        ∷ []);
    middlewares = none;
    servers_transports = none;
  });
  tcp = record { routers = []; services = []; middlewares = []; servers_transports = [] };
  udp = record { routers = []; services = [] };
  tls = record { certificates = []; options = []; stores = [] };
}

abbrev pub web_files : Dict TraefikDynamicConfiguration
web_files = ("web.yml", web) ∷ ("old-deploy.yml", web) ∷ []

-- files that can be written and removed, and nothing else
abbrev pub proxy : Files (List String)
proxy = record {
  read_dir = λ path seen. (ok ("web.yml" ∷ []), seen);
  read_file = λ path seen. (ok "web", seen);
  write_file = λ path text seen. (ok tt, path ∷ seen);
  remove = λ path seen. (ok tt, path ∷ seen);
  join_path = λ dir name. dir <> ("/" <> name);
  decode_static = λ text config. ok config;
  encode_static = λ config. ok "static";
  decode_dynamic = λ text. ok web;
  encode_dynamic = λ config. ok "web";
}
