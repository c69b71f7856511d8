-- ===== src/Core/Installer.antt =====
-- uberbase/pkg/core/installer.go: what is installed on a host, and how to install the rest.
pub mod Laws
use uberbase.Common.{String, ◌<>◌, ◌==◌, ◌||◌, Bool, true, false, Option, none, some, if◌then◌else◌}
use uberbase.Common.Text.{contains, trim_space}
use uberbase.Common.Effect.{
  nil_dereference, Result, ok, err, panicked, Io, pure, fail, crash, wrap, succeeds, either, ◌>>=◌,
  ◌>>◌,
}

pub record Platform : Type 0 where
  pub os : String
  pub distro : String
  pub has_sudo : Bool

-- The field `platform` of `Installer` beside the world of its executor.
pub record Host (W : Type 0) : Type 0 where
  pub platform : Option Platform
  pub world : W

-- the branches on the text of /etc/os-release
unfoldable pub distro_of : String → String
distro_of output =
    if contains output "ID=debian" || contains output "ID=ubuntu"
    then "debian"
    else if contains output "ID=rhel" || contains output "ID=fedora"
    then "rhel"
    else if contains output "ID=alpine"
    then "alpine"
    else ""

abbrev sudo : Platform → String → String
sudo p cmd = if p.has_sudo then "sudo " <> cmd else cmd

module _ {W : Type 0} (exec : String → Io W String) where
  -- i.executor.Exec
  abbrev pub run : String → Io (Host W) String
  run cmd h = let (r, w) = exec cmd h.world in (r, record h { world = w })

  -- `_, err := i.executor.Exec(cmd); return err`
  abbrev command : String → Io (Host W) (Unit {0})
  command cmd = do run cmd; pure tt

  set_platform : Platform → Io (Host W) (Unit {0})
  set_platform p h = (ok tt, record h { platform = some p })

  detect_distro : String → Io (Host W) String
  unfolding distro_of
  detect_distro os =
      if os == "Linux"
      then either (run "cat /etc/os-release") (λ output. pure (distro_of output)) (λ _. pure "")
      else pure ""

  -- `DetectPlatform`
  unfoldable pub detect_platform : Io (Host W) (Unit {0})
  unfolding detect_distro set_platform trim_space
  detect_platform = do
    os ← wrap "failed to detect OS: " (run "uname -s")
    has_sudo ← succeeds (run "sudo -n true")
    distro ← detect_distro (trim_space os)
    set_platform (record { os = trim_space os; distro = distro; has_sudo = has_sudo })

  -- `HasGit`, `HasDocker`, `HasDockerCompose`, `HasPodman`, `HasPodmanCompose`
  unfoldable pub has_git : Io (Host W) Bool
  has_git = succeeds (run "git --version")

  unfoldable pub has_docker : Io (Host W) Bool
  has_docker = succeeds (run "docker --version")

  unfoldable pub has_docker_compose : Io (Host W) Bool
  has_docker_compose = succeeds (run "docker compose --version")

  unfoldable pub has_podman : Io (Host W) Bool
  has_podman = succeeds (run "podman --version")

  unfoldable pub has_podman_compose : Io (Host W) Bool
  has_podman_compose = succeeds (run "podman-compose --version")

  -- a read of `i.platform`, which is a nil dereference where it is not set
  abbrev held : Option Platform → Io (Host W) Platform
  held none = crash nil_dereference
  held (some p) = pure p

  -- `if i.platform == nil { i.DetectPlatform() … }`
  abbrev detect_if_none : Option Platform → Io (Host W) (Unit {0})
  unfolding detect_platform
  detect_if_none none = detect_platform
  detect_if_none (some p) = pure tt

  require_platform : Io (Host W) Platform
  unfolding detect_platform
  require_platform h = (detect_if_none h.platform >>= λ _ h'. held h'.platform h') h

  unsupported : String → Platform → Io (Host W) (Unit {0})
  unsupported text p = fail (text <> (p.os <> (" (" <> (p.distro <> ")"))))

  install_git_on : Platform → Io (Host W) (Unit {0})
  unfolding unsupported
  install_git_on p =
      if p.os == "Darwin"
      then command "brew install git"
      else if p.os == "Linux"
      then (if p.distro == "debian"
          then command (sudo p "apt-get update && apt-get install -y git")
          else if p.distro == "rhel"
          then command (sudo p "dnf install -y git")
          else if p.distro == "alpine"
          then command (sudo p "apk add git")
          else unsupported "unsupported platform: " p)
      else if p.os == "Windows"
      then command "winget install -e --id Git.Git"
      else unsupported "unsupported platform: " p

  -- `InstallGit`
  unfoldable pub install_git : Io (Host W) (Unit {0})
  unfolding require_platform install_git_on
  install_git = do p ← require_platform; install_git_on p

  -- `installPodman`
  install_podman : Platform → Io (Host W) (Unit {0})
  unfolding unsupported
  install_podman p =
      if p.os == "Darwin"
      then command "brew install podman"
      else if p.os == "Linux"
      then (if p.distro == "debian"
          then command (sudo p "apt-get update && apt-get install -y podman")
          else if p.distro == "rhel"
          then command (sudo p "dnf install -y podman")
          else unsupported "podman installation not supported on " p)
      else if p.os == "Windows"
      then command "winget install -e --id RedHat.Podman"
      else unsupported "podman installation not supported on " p

  -- `installPodmanCompose`
  install_podman_compose : Platform → Io (Host W) (Unit {0})
  install_podman_compose p =
      if p.os == "Darwin"
      then command "brew install podman-compose"
      else if p.os == "Linux"
      then command (sudo p "pip3 install podman-compose")
      else fail ("podman-compose installation not supported on " <> p.os)

  -- `installDocker`
  install_docker : Platform → Io (Host W) (Unit {0})
  install_docker p =
      if p.os == "Darwin"
      then command "brew install --cask docker"
      else if p.os == "Linux"
      then (do
        run "curl -fsSL https://get.docker.com -o get-docker.sh"
        command (sudo p "sh get-docker.sh"))
      else if p.os == "Windows"
      then command "winget install -e --id Docker.DockerDesktop"
      else fail ("docker installation not supported on " <> p.os)

  -- `InstallContainerRuntime`
  unfoldable pub install_container_runtime : Io (Host W) (Unit {0})
  unfolding require_platform install_podman install_podman_compose install_docker
  install_container_runtime = do
    p ← require_platform
    either (install_podman p) (λ _. install_podman_compose p) (λ _. install_docker p)
