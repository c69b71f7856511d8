-- ===== src/Containers/Runtime.antt =====
-- uberbase/pkg/containers/podman.go, docker.go and `NewContainerManager` of manager.go.
pub mod Laws
use uberbase.Common.{String, ◌<>◌, Option, none, some}
use uberbase.Common.Text.{trim_space, replace_first}
use uberbase.Common.Effect.{Result, ok, err, panicked, Io, pure, fail, either, ◌>>=◌, ◌>>◌}
use uberbase.Containers.{ContainerExecutor}

-- `PodmanExecutor` and `Docker` hold the same two paths and run them alike.
pub data Runtime : Type 0 where
  podman : (bin_path compose_path : String) → Runtime
  docker : (bin_path compose_path : String) → Runtime

module _ {W : Type 0} (exec : String → Io W String) where
  -- `~/` in the path of the compose command is expanded on the executor's host
  expand_home : String → Io W String
  unfolding replace_first trim_space
  expand_home compose_path =
      either (exec "echo $HOME")
        (λ home. pure (replace_first compose_path "~/" (trim_space home <> "/")))
        (λ _. pure compose_path)

  -- `NewPodmanExecutor`
  unfoldable pub new_podman_executor : String → String → Io W Runtime
  unfolding expand_home
  new_podman_executor bin_path compose_path = do
    path ← expand_home compose_path
    pure (podman bin_path path)

  -- `NewDockerExecutor`
  unfoldable pub new_docker_executor : String → String → Io W Runtime
  unfolding expand_home
  new_docker_executor bin_path compose_path = do
    path ← expand_home compose_path
    pure (docker bin_path path)

  -- the first block of `NewContainerManager`
  find_podman : Io W (Option Runtime)
  unfolding new_podman_executor trim_space
  find_podman =
      either (exec "which podman")
        (λ bin.
          either (exec "which podman-compose")
            (λ compose. do
              found ← new_podman_executor (trim_space bin) (trim_space compose)
              pure (some found))
            (λ _. pure none))
        (λ _. pure none)

  -- the second block, if the first has found nothing
  find_docker : Io W (Option Runtime)
  unfolding new_docker_executor trim_space
  find_docker =
      either (exec "which docker")
        (λ bin.
          either (exec "which docker-compose")
            (λ compose. do
              found ← new_docker_executor (trim_space bin) (trim_space compose)
              pure (some found))
            (λ _.
              either (exec "docker compose --version")
                (λ _. do
                  found ← new_docker_executor (trim_space bin) (trim_space bin <> " compose")
                  pure (some found))
                (λ _. pure none)))
        (λ _. pure none)

  abbrev or_docker : Option Runtime → Io W (Option Runtime)
  unfolding find_docker
  or_docker none = find_docker
  or_docker (some found) = pure (some found)

  abbrev or_missing : Option Runtime → Io W Runtime
  or_missing none = fail "podman/docker not found"
  or_missing (some found) = pure found

  -- `NewContainerManager`: the manager is its runtime beside the project
  unfoldable pub new_container_manager : Io W Runtime
  unfolding find_podman find_docker
  new_container_manager = do first ← find_podman; second ← or_docker first; or_missing second

  -- `Exec` and `ExecCompose` of both
  abbrev pub container_executor : Runtime → ContainerExecutor W
  container_executor (podman bin_path compose_path) = record {
    exec = λ command. exec (bin_path <> (" " <> command));
    exec_compose = λ command. exec (compose_path <> (" " <> command));
  }
  container_executor (docker bin_path compose_path) = record {
    exec = λ command. exec (bin_path <> (" " <> command));
    exec_compose = λ command. exec (compose_path <> (" " <> command));
  }
