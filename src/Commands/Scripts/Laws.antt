-- ===== src/Commands/Scripts/Laws.antt =====
-- Which status the process has after another program.
use uberbase.Common.{String, ◌<>◌, ◌≡◌, refl, Bool, true, List, [], ◌∷◌}
use uberbase.Common.Int.{ℤ, pos}
use uberbase.Common.Effect.{Result}
use uberbase.Commands.Scripts.{
  Ran, well, exit_error, other_error, Command, program, ended, returned, execute_command,
  run_command, run_script, run_container, main_status,
}

-- the status that tells how another program ended
abbrev pub passed_on : Ran → ℤ
passed_on well = pos 0
passed_on (exit_error status text) = status
passed_on (other_error text) = pos 1

abbrev pub zero_or_one : Ran → ℤ
zero_or_one well = pos 0
zero_or_one (exit_error status text) = pos 1
zero_or_one (other_error text) = pos 1

ended-passed_on : (r : Ran) → main_status (ended r) ≡ passed_on r
unfolding main_status ended
ended-passed_on well = refl
ended-passed_on (exit_error status text) = refl
ended-passed_on (other_error text) = refl

returned-zero_or_one : (r : Ran) → main_status (returned r) ≡ zero_or_one r
unfolding main_status returned
returned-zero_or_one well = refl
returned-zero_or_one (exit_error status text) = refl
returned-zero_or_one (other_error text) = refl

module _ {W : Type 0} (run : String → List String → W → Ran × W) where
  -- Every command of cli.go runs its program once, and the process ends with the program's status.
  -- The script commands, where there is a script, and the container commands with an argument run
  -- one program too, but the process ends with 1 whatever status the program fails with.
  main_status-program :
      (command : Command) (args : List String) (help : W → Result (Unit {0}) × W)
      (arg name : String) (exists : String → W → Bool × W) (w : W)
      → (let (binary, all_args) = program command args in
          let (r, w') = run binary all_args w in
          let (e, v) = run_command run command args w in (main_status e ≡ passed_on r) × (v ≡ w'))
        × (let (r, w') = run "podman" (arg ∷ args) w in
            let (e, v) = run_container run help (arg ∷ args) w in
            (main_status e ≡ zero_or_one r) × (v ≡ w'))
        × ((exists ("bin/" <> name) w).0 ≡ true
            → let (r, w') = run ("bin/" <> name) [] (exists ("bin/" <> name) w).1 in
              let (e, v) = run_script run exists name w in
              (main_status e ≡ zero_or_one r) × (v ≡ w'))
  unfolding run_command execute_command run_container run_script
  main_status-program command args help arg name exists w = (
    (ended-passed_on _, refl),
    (returned-zero_or_one _, refl),
    λ found. (rw (found, returned-zero_or_one), rw found),
  )
