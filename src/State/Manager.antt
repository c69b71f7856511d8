-- ===== src/State/Manager.antt =====
-- uberbase/pkg/state/manager.go: loading, updating and saving the state.
pub mod Laws
pub mod RoundTrip
use uberbase.Common.{String, ◌<>◌, ◌==◌, Option, none, some, List, [], ◌∷◌, if◌then◌else◌}
use uberbase.Common.Dict.{Dict, lookup}
use uberbase.Common.Effect.{
  nil_dereference, Result, ok, err, panicked, Io, pure, fail, crash, wrap, either, ◌>>=◌, ◌>>◌,
}
use uberbase.Containers.Override.{ComposeServiceOverride, Overrides}
use uberbase.Traefik.Dynamic.{TraefikDynamicConfiguration}
use uberbase.State.{
  ComposeServiceState, ComposeState, TraefikState, DeploymentState, zero_state, empty_state,
}

-- `StateManager` beside the world of its executor; `work_dir` never changes.
pub record StateManager (Volume Network W : Type 0) : Type 0 where
  pub current_state : DeploymentState Volume Network
  pub world : W

-- `yaml.Marshal` and `yaml.Unmarshal` of gopkg.in/yaml.v3, at the state
pub record Codec (Volume Network : Type 0) : Type 0 where
  pub encode : DeploymentState Volume Network → Result String
  pub decode : String → Result (DeploymentState Volume Network)

-- filepath.Join of a directory and a name, and filepath.Dir
pub record Paths : Type 0 where
  pub join : String → String → String
  pub dir : String → String

-- one round of the loop over the state's services in `Update`
unfoldable pub update_service :
    String → ComposeServiceState → Option ComposeServiceOverride → ComposeServiceState
update_service tag service none = service
update_service tag service (some override) = record service {
  service_name = override.ref_name <> ("-" <> tag);
  container_name = override.ref_name <> ("-" <> tag);
  hostname = override.hostname;
  image = override.image;
}

unfoldable pub update_services :
    String → Overrides → Dict ComposeServiceState → Dict ComposeServiceState
unfolding update_service lookup
update_services tag overrides [] = []
update_services tag overrides ((name, service) ∷ services) =
    (name, update_service tag service (lookup service.service_name overrides))
    ∷ update_services tag overrides services

module _ {Volume Network W : Type 0} (exec : String → Io W String) (codec : Codec Volume Network)
    (paths : Paths) (work_dir : String) where
  abbrev pub state_file : String
  state_file = paths.join work_dir "deployment-state.yml"

  -- `Load`. It gives the state back and does not keep it in `CurrentState`.
  unfoldable pub load : Io W (DeploymentState Volume Network)
  load =
      either (exec ("test -f " <> state_file))
        (λ _. do
          text ← wrap "failed to read state file: " (exec ("cat " <> state_file))
          wrap "failed to unmarshal state: " (λ w. (codec.decode text, w)))
        (λ _. pure empty_state)

  -- the command that writes the state file
  abbrev pub write_command : String → String
  write_command text = "cat <<'EOF' > " <> (state_file <> ("\n" <> (text <> "\nEOF")))

  -- `write`
  unfoldable pub write : DeploymentState Volume Network → Io W (Unit {0})
  write state = if work_dir == "" then fail "work directory not set" else (do
    text ← wrap "failed to marshal state: " (λ w. (codec.encode state, w))
    wrap "failed to create state directory: " (exec ("mkdir -p " <> paths.dir work_dir))
    wrap "failed to write state file: " (exec (write_command text))
    pure tt)

  -- `Save`
  unfoldable pub save : Io (StateManager Volume Network W) (Unit {0})
  unfolding write
  save m = let (r, w) = write m.current_state m.world in (r, record m { world = w })

  -- the first loop of `Update`: a nil dereference where the state has no compose section
  update_compose :
      String
      → Overrides
      → Option (ComposeState Volume Network)
      → Io (StateManager Volume Network W) (Unit {0})
  unfolding update_services
  update_compose tag overrides none = crash nil_dereference
  update_compose tag overrides (some c) = λ m. (
    ok tt,
    record m {
      current_state = record (m.current_state) {
        compose = some (record c { services = update_services tag overrides c.services });
      };
    },
  )

  -- the assignments to `CurrentState.Traefik`
  update_traefik :
      String
      → Dict TraefikDynamicConfiguration
      → Option TraefikState
      → Io (StateManager Volume Network W) (Unit {0})
  update_traefik tag configs none = crash nil_dereference
  update_traefik tag configs (some t) = λ m. (
    ok tt,
    record m {
      current_state = record (m.current_state) {
        traefik = some (record { tag = tag; configs = configs });
      };
    },
  )

  -- `Update`
  unfoldable pub update :
      Overrides
      → Dict TraefikDynamicConfiguration
      → String
      → Io (StateManager Volume Network W) (Unit {0})
  unfolding update_compose update_traefik
  update overrides configs tag =
      (λ m. update_compose tag overrides m.current_state.compose m)
      >> ((λ m. update_traefik tag configs m.current_state.traefik m) >> save)
