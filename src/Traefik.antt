-- ===== src/Traefik.antt =====
-- uberbase/pkg/traefik/config.go: reading and writing the proxy's configuration files.
pub mod Dynamic
pub mod Static
use uberbase.Common.{String, ◌<>◌, List, [], ◌∷◌}
use uberbase.Common.Dict.{Dict, insert}
use uberbase.Common.Effect.{Result, ok, err, panicked, Io, pure, ◌>>=◌}
use Dynamic.{TraefikDynamicConfiguration}
use Static.{TraefikStaticConfiguration, zero_static}

abbrev pub static_config_path : String
static_config_path = "/etc/traefik/config/traefik.yml"

abbrev pub dynamic_config_path : String
dynamic_config_path = "/etc/traefik/config/dynamic"

-- The file system of this machine and the YAML library at the two kinds of files. Unmarshal
-- writes what the text says over the value that it is given.
pub record Files (W : Type 0) : Type 0 where
  pub read_dir : String → Io W (List String)
  pub read_file : String → Io W String
  pub write_file : String → String → Io W (Unit {0})
  pub remove : String → Io W (Unit {0})
  pub join_path : String → String → String
  pub decode_static : String → TraefikStaticConfiguration → Result TraefikStaticConfiguration
  pub encode_static : TraefikStaticConfiguration → Result String
  pub decode_dynamic : String → Result TraefikDynamicConfiguration
  pub encode_dynamic : TraefikDynamicConfiguration → Result String

module _ {W : Type 0} (files : Files W) where
  -- `LoadTraefikStaticConfig`
  unfoldable pub load_static_config : Io W TraefikStaticConfiguration
  load_static_config = do
    content ← files.read_file static_config_path
    λ w. (files.decode_static content zero_static, w)

  -- the loop over the files of the directory
  load_files :
      Dict TraefikDynamicConfiguration → List String → Io W (Dict TraefikDynamicConfiguration)
  unfolding insert
  load_files configs [] = pure configs
  load_files configs (name ∷ names) = do
    content ← files.read_file (files.join_path dynamic_config_path name)
    config ← λ w. (files.decode_dynamic content, w)
    load_files (insert name config configs) names

  -- `LoadTraefikDynamicConfigs`
  unfoldable pub load_dynamic_configs : Io W (Dict TraefikDynamicConfiguration)
  unfolding load_files
  load_dynamic_configs = do names ← files.read_dir dynamic_config_path; load_files [] names

  -- `WriteToFile` of a dynamic configuration
  unfoldable pub write_to_file : TraefikDynamicConfiguration → String → String → Io W (Unit {0})
  write_to_file config dir name = do
    content ← λ w. (files.encode_dynamic config, w)
    files.write_file (files.join_path dir name) content

  -- `WriteToFile` of a static configuration
  unfoldable pub write_static_to_file : TraefikStaticConfiguration → String → Io W (Unit {0})
  write_static_to_file config path = do
    content ← λ w. (files.encode_static config, w)
    files.write_file path content
