-- ===== src/Deploy/Rollback.antt =====
-- uberbase/pkg/deploy/rollback.go: the steps that take a deployment back.
pub mod Laws
use uberbase.Common.{
  ℕ, length, String, ◌<>◌, not, Bool, Option, none, some, List, [], ◌∷◌, ◌++◌, if◌then◌else◌,
}
use uberbase.Common.Decimal.{decimal}
use uberbase.Common.Text.{join}
use uberbase.Common.Effect.{Result, ok, err, panicked, Io, pure, fail, either, ◌>>=◌, ◌>>◌}
use uberbase.State.{TraefikState, DeploymentState, zero_state}
use uberbase.State.Equality.{equal}
use mathlib.Core.List.{reverse}

-- `RollbackStep` over the state that its functions act on. The five minutes that each step has are
-- not modelled.
pub record RollbackStep (S : Type 0) : Type 0 where
  pub name : String
  pub rollback : Io S (Unit {0})
  pub verify : Option (Io S (Unit {0}))

-- `AddRollbackStep`
unfoldable pub add_rollback_step :
    {S : Type 0} → RollbackStep S → List (RollbackStep S) → List (RollbackStep S)
add_rollback_step step steps = steps ++ (step ∷ [])

module _ {S : Type 0} where
  -- the verification of a step that was rolled back
  verify_step : String → Option (Io S (Unit {0})) → Io S (List String)
  verify_step name none = pure []
  verify_step name (some verify) =
      either verify (λ _. pure [])
        (λ e. pure (("rollback verification '" <> (name <> ("' failed: " <> e))) ∷ []))

  -- one round of the loop: the errors that it appends
  unfoldable pub run_step : RollbackStep S → Io S (List String)
  unfolding verify_step
  run_step step =
      either step.rollback (λ _. verify_step step.name step.verify)
        (λ e. pure (("rollback step '" <> (step.name <> ("' failed: " <> e))) ∷ []))

  run_steps : List (RollbackStep S) → Io S (List String)
  unfolding run_step
  run_steps [] = pure []
  run_steps (step ∷ steps) = do
    errors ← run_step step
    more ← run_steps steps
    pure (errors ++ more)

  -- the loop, from the last step to the first
  unfoldable pub run_reversed : List (RollbackStep S) → Io S (List String)
  unfolding run_steps
  run_reversed steps = run_steps (reverse steps)

  -- the return at the end
  report : List String → Io S (Unit {0})
  unfolding decimal join
  report [] = pure tt
  report (e ∷ es) = fail (
      "rollback failed with "
      <> (decimal (length (e ∷ es)) <> (" errors: [" <> (join (e ∷ es) " " <> "]"))))

  module _ {Volume Network : Type 0} (load : Io S (DeploymentState Volume Network))
      (deep_equal : Option TraefikState → Option TraefikState → Bool) where
    -- the comparison of the final state with the initial one
    compare_states : DeploymentState Volume Network → Io S (List String)
    compare_states initial =
        either load
          (λ final. (λ s. (equal deep_equal initial final, s)) >>= λ same.
            pure (if not same then "final state does not match initial state" ∷ [] else []))
          (λ e. pure (("failed to load final state: " <> e) ∷ []))

    -- `Rollback`; an error of the first load leaves the zero state
    unfoldable pub rollback : List (RollbackStep S) → Io S (Unit {0})
    unfolding run_reversed compare_states report
    rollback steps = either load pure (λ _. pure zero_state) >>= λ initial.
        run_reversed steps >>= λ errors. compare_states initial >>= λ more. report (errors ++ more)
