-- ===== src/Examples/Hosts.antt =====
-- What is found on a host and installed there.
use uberbase.Common.{
  String, ◌≡◌, refl, Bool, true, false, ◌==◌, ◌&&◌, ◌||◌, some, List, [], if◌then◌else◌,
}
use uberbase.Common.Effect.{Result, ok, err}
use uberbase.Common.Effect.Steady.{steady, works, panics, IsCalm}
use uberbase.Core.Installer.{Platform, Host, install_git}
use uberbase.Core.Installer.Laws.{HasPackages, install_git-HasPackages}
use uberbase.Containers.Runtime.{new_container_manager}
use uberbase.Containers.Runtime.Laws.{manages, manages_podman, new_container_manager_iff}
use uberbase.Examples.{answering}

abbrev debian : Platform
debian = record { os = "Linux"; distro = "debian"; has_sudo = true }

abbrev debian_host : Host (List String)
debian_host = record { platform = some debian; world = [] }

-- A host with docker and podman-compose, and neither docker-compose nor podman.
abbrev missing : String → Bool
missing cmd =
    cmd == "docker compose --version"
    || cmd == "podman --version"
    || cmd == "which podman"
    || cmd == "which docker-compose"

abbrev mixed : String → Result String
mixed cmd = if missing cmd then err "not found" else ok "/usr/bin/tool"

calm_if : (b : Bool) → panics (if b then err "not found" else ok "/usr/bin/tool") ≡ false
calm_if true = refl
calm_if false = refl

mixed-IsCalm : IsCalm mixed
mixed-IsCalm cmd = calm_if (missing cmd)

install_git-HasPackages_example :
    (p : Platform) × ((install_git (answering "") debian_host).1.platform ≡ some p) × HasPackages p
unfolding install_git
install_git-HasPackages_example = install_git-HasPackages (answering "") debian_host refl

new_container_manager_iff_example :
    (manages (new_container_manager (steady mixed) tt).0 ≡ (
      (works (mixed "which podman") && works (mixed "which podman-compose"))
      || (works (mixed "which docker")
          && (works (mixed "which docker-compose") || works (mixed "docker compose --version")))))
    × (manages_podman (new_container_manager (steady mixed) tt).0
        ≡ (works (mixed "which podman") && works (mixed "which podman-compose")))
new_container_manager_iff_example = new_container_manager_iff mixed mixed-IsCalm (tt {0})
