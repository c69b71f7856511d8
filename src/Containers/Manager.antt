-- ===== src/Containers/Manager.antt =====
-- uberbase/pkg/containers/manager.go, network.go and volume.go: one compose command each.
use uberbase.Common.{String, ◌<>◌, Bool, if◌then◌else◌, List}
use uberbase.Common.Text.{join}
use uberbase.Common.Effect.{Io, wrap}
use uberbase.Containers.{Service, ComposeProject, ContainerExecutor}

pub record RegistryOptions : Type 0 where
  pub registry : String
  pub username : String
  pub password : String

module _ {W : Type 0} (e : ContainerExecutor W) where
  -- `Auth`
  unfoldable pub auth : RegistryOptions → Io W String
  auth opts =
      e.exec
        ("login " <> (opts.registry <> (" -u " <> (opts.username <> (" -p " <> opts.password)))))

  module _ (compose : ComposeProject) (override_path : String) where
    -- the two files that every compose command of a deployment names
    abbrev files : String
    files = "-f " <> (compose.remote_file_path <> (" -f " <> override_path))

    -- `Up`
    unfoldable pub up : Io W String
    up = wrap "failed to up: " (e.exec_compose (files <> " up -d"))

    -- `Down`
    unfoldable pub down : List String → Io W String
    unfolding join
    down containers =
        wrap "failed to remove: "
          (e.exec_compose (files <> (" down --remove-orphans " <> join containers " ")))

    -- `Start`
    unfoldable pub start : Service → Io W String
    start service = wrap "failed to start: " (e.exec_compose (files <> (" up -d " <> service.name)))

    -- `Run`
    unfoldable pub run : Service → List String → Bool → Io W String
    unfolding join
    run service command persistent =
        let run_cmd = files <> (" run --rm --name " <> service.name) in
        wrap "failed to run: " (
          e.exec_compose
            ((if persistent then run_cmd <> " -d" else run_cmd) <> (" " <> join command " ")))

    -- `Exec`
    unfoldable pub exec : Service → List String → Io W String
    unfolding join
    exec service command =
        wrap "failed to exec: "
          (e.exec_compose (files <> (" exec " <> (service.name <> (" " <> join command " ")))))

  -- `CreateNetwork`, `RemoveNetwork`, `CreateVolume`, `RemoveVolume`
  unfoldable pub create_network : String → Io W String
  create_network name =
      wrap "failed to create network: " (e.exec_compose ("network create " <> name))

  unfoldable pub remove_network : String → Io W String
  remove_network name = wrap "failed to remove network: " (e.exec_compose ("network rm " <> name))

  unfoldable pub create_volume : String → Io W String
  create_volume name = wrap "failed to create volume: " (e.exec_compose ("volume create " <> name))

  unfoldable pub remove_volume : String → Io W String
  remove_volume name = wrap "failed to remove volume: " (e.exec_compose ("volume rm " <> name))
