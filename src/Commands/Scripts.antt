-- ===== src/Commands/Scripts.antt =====
-- uberbase/pkg/cli/cli.go, and uberbase/cmd/uberbase/scripts.go and container.go: the commands that
-- run another program with the terminal's streams.
pub mod Laws
use uberbase.Common.{String, Bool, true, false, not, List, [], ◌∷◌, ◌++◌, ◌<>◌, if◌then◌else◌}
use uberbase.Common.Int.{ℤ, pos}
use uberbase.Common.Effect.{Result, ok, err, panicked, Io, pure, fail, ◌>>=◌}

-- What `Run` of os/exec returns: nil, an error that is an `ExitError` with a status, or another. The
-- text is that of the error.
pub data Ran : Type 0 where
  well : Ran
  exit_error : ℤ → String → Ran
  other_error : String → Ran

-- how the function of a command ends: it returns, or it exits from the process
pub data Ended : Type 0 where
  returns : Result (Unit {0}) → Ended
  exits : ℤ → Ended

-- the commands of cli.go
pub data Command : Type 0 where
  start : Command
  stop : Command
  deploy : Command
  compose : Command
  podman : Command
  vault : Command

-- the end of `executeCommand`
unfoldable pub ended : Ran → Ended
ended well = returns (ok tt)
ended (exit_error status text) = exits status
ended (other_error text) = returns (err text)

-- the end of the functions in scripts.go and container.go
unfoldable pub returned : Ran → Ended
returned well = returns (ok tt)
returned (exit_error status text) = returns (err text)
returned (other_error text) = returns (err text)

-- The program and the arguments that each `RunE` gives to `executeCommand`
unfoldable pub program : Command → List String → String × List String
program start args = ("./bin/start", args)
program stop args = ("./bin/stop", args)
program deploy args = ("./bin/deploy", args)
program compose args = ("podman-compose", args)
program podman args = ("podman", args)
program vault args = ("podman", ("exec" ∷ "-it" ∷ "vault" ∷ "vault" ∷ []) ++ args)

module _ {W : Type 0} (run : String → List String → W → Ran × W) where
  -- `executeCommand`
  unfoldable pub execute_command : String → List String → W → Ended × W
  unfolding ended
  execute_command binary args w = let (r, w') = run binary args w in (ended r, w')

  unfoldable pub run_command : Command → List String → W → Ended × W
  unfolding execute_command program
  run_command command args =
      let (binary, all_args) = program command args in execute_command binary all_args

  -- `RunE` of `getContainerCmd`, where `help` is `cmd.Help()` of cobra
  unfoldable pub run_container : (W → Result (Unit {0}) × W) → List String → W → Ended × W
  unfolding returned
  run_container help [] w = let (r, w') = help w in (returns r, w')
  run_container help (arg ∷ args) w = let (r, w') = run "podman" (arg ∷ args) w in (returned r, w')

  -- `RunE` of `getStartCmd` and `getStopCmd`: `exists` is false where os.Stat finds no such file, and
  -- the name is start or stop
  unfoldable pub run_script : (String → W → Bool × W) → String → W → Ended × W
  unfolding returned
  run_script exists name w =
      let path = "bin/" <> name in
      let (found, w1) = exists path w in
      let (r, w2) = run path [] w1 in
      if found
      then (returned r, w2)
      else (returns (err (name <> (" bin not found at " <> path))), w1)

-- The status of the process that `main` of the program ends with, after `rootCmd.Execute()`. The
-- run-time system of Go ends a panic with 2.
unfoldable pub main_status : Ended → ℤ
main_status (returns (ok u)) = pos 0
main_status (returns (err e)) = pos 1
main_status (returns (panicked e)) = pos 2
main_status (exits status) = status
