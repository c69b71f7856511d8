-- ===== src/Core/Local.antt =====
-- uberbase/pkg/core/local.go: commands on this machine. `sh_c` is `sh -c` by os/exec.
pub mod Laws
use uberbase.Common.{String, Bool, true, not, if◌then◌else◌}
use uberbase.Common.Effect.{Io, pure, fail, ◌>>=◌}
use uberbase.Core.Installer.{
  Host, has_git, has_docker, has_podman, has_docker_compose, has_podman_compose,
}

module _ {W : Type 0} (sh_c : String → Io W String) where
  -- `Exec`; what goes to the log is not modelled
  unfoldable pub exec : String → Io W String
  exec cmd = sh_c cmd

  -- `Test`
  unfoldable pub test : Io W Bool
  test = pure true

  -- `SendFile`
  unfoldable pub send_file : String → String → Io W (Unit {0})
  send_file local_path remote_path = pure tt

  -- `Verify`
  unfoldable pub verify : Io (Host W) (Unit {0})
  unfolding exec has_git has_docker has_podman has_docker_compose has_podman_compose
  verify = do
    git ← has_git exec
    if not git then fail "git is not installed" else do
      docker ← has_docker exec
      podman ← if docker then pure true else has_podman exec
      if not podman then fail "docker or podman is not installed" else do
        docker_compose ← has_docker_compose exec
        compose ← if docker_compose then pure true else has_podman_compose exec
        (if compose then pure tt else fail "docker-compose or podman-compose is not installed")
