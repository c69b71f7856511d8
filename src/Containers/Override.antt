-- ===== src/Containers/Override.antt =====
-- uberbase/pkg/containers/override.go: the compose file that gives the new containers their names.
pub mod Laws
pub mod Order
use uberbase.Common.{String, ◌<>◌, Option, none, some, List, [], ◌∷◌}
use uberbase.Common.Dict.{Dict, insert}
use uberbase.Common.Effect.{Result, ok, err, panicked, Io, pure, ◌>>=◌, ◌>>◌}
use uberbase.Utils.{strip_tag}
use uberbase.Containers.{BuildConfig, Service}

pub record ComposeServiceOverride : Type 0 where
  pub hostname : String
  pub image : String
  pub name : String
  pub ref_name : String

abbrev pub Overrides : Type 0
Overrides = Dict ComposeServiceOverride

unfoldable pub service_override : String → Service → ComposeServiceOverride
unfolding strip_tag
service_override tag s = record {
  ref_name = s.name;
  name = s.name <> ("-" <> tag);
  hostname = s.hostname <> ("-" <> tag);
  image = strip_tag s.image <> (":" <> tag);
}

-- one round of the loop
add_override : String → Service → Option BuildConfig → Overrides → Overrides
unfolding service_override insert
add_override tag s none overrides = overrides
add_override tag s (some b) overrides = insert s.name (service_override tag s) overrides

overrides_from : String → Overrides → List Service → Overrides
unfolding add_override
overrides_from tag overrides [] = overrides
overrides_from tag overrides (s ∷ services) =
    overrides_from tag (add_override tag s s.build overrides) services

-- `NewComposeOverride`
unfoldable pub new_compose_override : List Service → String → Overrides
unfolding overrides_from
new_compose_override services tag = overrides_from tag [] services

-- `WriteToFile`; `encode` is `yaml.Marshal`, and the path is joined by filepath.Join
unfoldable pub write_to_file :
    {W : Type 0}
    → (String → Io W String)
    → (Overrides → Result String)
    → (String → String → String)
    → Overrides
    → String
    → Io W String
write_to_file exec encode path_join overrides remote_work_dir = do
  yaml ← λ w. (encode overrides, w)
  let override_file = path_join remote_work_dir "docker-compose.override.yml"
  exec ("cat <<EOF > " <> (override_file <> ("\n" <> (yaml <> "\nEOF"))))
  pure override_file
