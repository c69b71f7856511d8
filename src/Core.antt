-- ===== src/Core.antt =====
-- uberbase/pkg/core/executor.go: where the commands of a deployment run.
pub mod Installer
pub mod Local
pub mod Remote
use uberbase.Common.{String, Bool}
use uberbase.Common.Effect.{Io}

-- The interface `Executor`
pub record Executor (W : Type 0) : Type 0 where
  pub exec : String → Io W String
  pub test : Io W Bool
  pub verify : Io W (Unit {0})
  pub send_file : String → String → Io W (Unit {0})
