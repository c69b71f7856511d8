-- ===== src/Containers/Runtime/Laws.antt =====
-- Which runtime a manager finds, on a host whose answers do not change.
use uberbase.Common.{String, ◌≡◌, Bool, true, false, ◌&&◌, ◌||◌, arith}
use uberbase.Common.Effect.{Result, ok}
use uberbase.Common.Effect.Steady.{steady, works, IsCalm}
use uberbase.Containers.Runtime.{Runtime, podman, new_container_manager}

abbrev pub manages_podman : Result Runtime → Bool
manages_podman (ok (podman _ _)) = true
manages_podman _ = false

abbrev pub manages : Result Runtime → Bool
manages (ok _) = true
manages _ = false

module _ {W : Type 0} (answer : String → Result String) (calm : IsCalm answer) (w : W) where
  -- A manager is made exactly where podman comes with podman-compose, or docker with docker-compose
  -- or its compose command. It runs podman exactly where the first holds.
  pub new_container_manager_iff :
      (manages (new_container_manager (steady answer) w).0 ≡ (
        (works (answer "which podman") && works (answer "which podman-compose"))
        || (works (answer "which docker")
            && (works (answer "which docker-compose")
                || works (answer "docker compose --version")))))
      × (manages_podman (new_container_manager (steady answer) w).0
          ≡ (works (answer "which podman") && works (answer "which podman-compose")))
  unfolding new_container_manager
  new_container_manager_iff = (
    ground (
      arith,
      calm "which podman",
      calm "which podman-compose",
      calm "which docker",
      calm "which docker-compose",
      calm "docker compose --version",
      calm "echo $HOME",
    ),
    ground (
      arith,
      calm "which podman",
      calm "which podman-compose",
      calm "which docker",
      calm "which docker-compose",
      calm "docker compose --version",
      calm "echo $HOME",
    ),
  )
