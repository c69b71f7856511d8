-- ===== src/Core/Local/Laws.antt =====
-- What the check of the local tools accepts.
use uberbase.Common.{String, ◌≡◌, Bool, true, false, ◌&&◌, ◌||◌, arith}
use uberbase.Common.Effect.{Result, ok}
use uberbase.Common.Effect.Steady.{steady, works, IsCalm}
use uberbase.Core.Installer.{Host}
use uberbase.Core.Local.{verify}

abbrev pub passes : Result (Unit {0}) → Bool
passes (ok _) = true
passes _ = false

-- On a host with steady answers the local check passes exactly where git works, and docker or
-- podman, and one of the two compose commands.
pub verify-eq :
    {W : Type 0} (answer : String → Result String) (h : Host W)
    → IsCalm answer
    → passes (verify (steady answer) h).0 ≡ (
        works (answer "git --version")
        && (works (answer "docker --version") || works (answer "podman --version"))
        && (works (answer "docker compose --version") || works (answer "podman-compose --version")))
unfolding verify
verify-eq answer h calm = ground (
  arith,
  calm "git --version",
  calm "docker --version",
  calm "podman --version",
  calm "docker compose --version",
  calm "podman-compose --version",
)
