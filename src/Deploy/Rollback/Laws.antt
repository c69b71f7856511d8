-- ===== src/Deploy/Rollback/Laws.antt =====
-- The order of the steps, and when a rollback reports success.
use mathlib.Core.List.{reverse, reverse-append}
use mathlib.Core.Path.{subst}
use uberbase.Common.{
  String, ◌≡◌, refl, ap, ◌∙◌, Bool, true, Option, none, some, List, [], ◌∷◌, ◌++◌, arith,
}
use uberbase.Common.Effect.{Result, ok, Io, pure, either, ◌>>=◌}
use uberbase.Common.Effect.Laws.{bind-eq-ok, either_rule}
use uberbase.State.{TraefikState, DeploymentState, zero_state}
use uberbase.State.Equality.{equal}
use uberbase.Deploy.Rollback.{
  RollbackStep, verify_step, add_rollback_step, run_step, run_steps, run_reversed, report,
  compare_states, rollback,
}

append-eq-nil : (xs ys : List String) → xs ++ ys ≡ [] → (xs ≡ []) × (ys ≡ [])
append-eq-nil [] ys h = (refl, h)
append-eq-nil (x ∷ xs) ys h = cc

-- The state with which a rollback compares: that of the first load, or the zero state.
abbrev pub initial_of :
    {Volume Network : Type 0}
    → Result (DeploymentState Volume Network)
    → DeploymentState Volume Network
initial_of (ok state) = state
initial_of _ = zero_state

module _ {S : Type 0} where
  -- The step that was registered last is taken back first.
  run_reversed-add_rollback_step :
      (step : RollbackStep S) (steps : List (RollbackStep S))
      → run_reversed (add_rollback_step step steps)
        ≡ (run_step step >>= λ errors. run_reversed steps >>= λ more. pure (errors ++ more))
  unfolding add_rollback_step run_reversed
  run_reversed-add_rollback_step step steps = ap run_steps (reverse-append steps (step ∷ []))

  -- The step was taken back, and what verifies it agrees.
  abbrev pub Verified : Option (Io S (Unit {0})) → S → Type 0
  Verified none s = Unit
  Verified (some verify) s = (verify s).0 ≡ ok tt

  abbrev pub TakenBack : RollbackStep S → S → Type 0
  TakenBack step s = ((step.rollback s).0 ≡ ok tt) × Verified step.verify (step.rollback s).1

  abbrev pub AllTakenBack : List (RollbackStep S) → S → Type 0
  AllTakenBack [] s = Unit
  AllTakenBack (step ∷ steps) s = TakenBack step s × AllTakenBack steps (run_step step s).1

  verify_step-Verified :
      (name : String) (verify : Option (Io S (Unit {0}))) (s : S)
      → (verify_step name verify s).0 ≡ ok []
      → Verified verify s
  unfolding verify_step
  verify_step-Verified name none s h = tt
  verify_step-Verified name (some verify) s h = ground (arith, h)

  run_step-TakenBack :
      (step : RollbackStep S) (s : S) → (run_step step s).0 ≡ ok [] → TakenBack step s
  unfolding run_step
  run_step-TakenBack step s h =
      (ground (arith, h), verify_step-Verified step.name step.verify _ (ground (arith, h)))

  run_steps-AllTakenBack :
      (steps : List (RollbackStep S)) (s : S) → (run_steps steps s).0 ≡ ok [] → AllTakenBack steps s
  unfolding run_steps
  run_steps-AllTakenBack [] s h = tt
  run_steps-AllTakenBack (step ∷ steps) s h =
      let (errors, first, rest) =
        bind-eq-ok (run_step step) (λ errors. run_steps steps >>= λ more. pure (errors ++ more)) s
          h in
      let (more, second, last) =
        bind-eq-ok (run_steps steps) (λ more. pure (errors ++ more)) _ rest in
      let (none_here, none_later) = append-eq-nil errors more (cc last) in
      (
        run_step-TakenBack step s (cc (first, none_here)),
        run_steps-AllTakenBack steps _ (cc (second, none_later)),
      )

  module _ {Volume Network : Type 0} (load : Io S (DeploymentState Volume Network))
      (deep_equal : Option TraefikState → Option TraefikState → Bool) where
    report-nil : (errors : List String) (s : S) → (report errors s).0 ≡ ok tt → errors ≡ []
    unfolding report
    report-nil [] s h = refl
    report-nil (e ∷ es) s h = cc

    compare_states-nil :
        (initial : DeploymentState Volume Network) (s : S)
        → (compare_states load deep_equal initial s).0 ≡ ok []
        → (final : DeploymentState Volume Network) × ((load s).0 ≡ ok final)
          × (equal deep_equal initial final ≡ ok true)
    unfolding compare_states
    compare_states-nil initial s =
        either_rule
          (λ p.
            p.0 ≡ ok []
            → (final : DeploymentState Volume Network) × ((load s).0 ≡ ok final)
              × (equal deep_equal initial final ≡ ok true))
          load _ _ s (λ final e h. (final, e, ground (arith, h))) (λ e _ h. cc) (λ e _ h. cc)

    -- the first load, whose error is dropped
    abbrev first_load : Io S (DeploymentState Volume Network)
    first_load = either load pure (λ _. pure zero_state)

    first_load_lem :
        (s : S) {initial : DeploymentState Volume Network}
        → (first_load s).0 ≡ ok initial
        → ((first_load s).1 ≡ (load s).1) × (initial ≡ initial_of (load s).0)
    first_load_lem s h = (ground arith, ground arith)

    -- what a report of success says, from the comparison's state on
    abbrev Restored : List (RollbackStep S) → DeploymentState Volume Network → S → Type 0
    Restored steps initial s =
        AllTakenBack (reverse steps) s
        × (final : DeploymentState Volume Network) × ((load (run_reversed steps s).1).0 ≡ ok final)
        × (equal deep_equal initial final ≡ ok true)

    rollback_from :
        (steps : List (RollbackStep S)) (initial : DeploymentState Volume Network) (s : S)
        → ((run_reversed steps >>= λ errors.
              compare_states load deep_equal initial >>= λ more. report (errors ++ more))
            s).0
          ≡ ok tt
        → Restored steps initial s
    unfolding run_reversed
    rollback_from steps initial s h =
        let (errors, ran, rest) =
          bind-eq-ok (run_reversed steps)
            (λ errors. compare_states load deep_equal initial >>= λ more. report (errors ++ more)) s
            h in
        let (more, compared, last) =
          bind-eq-ok (compare_states load deep_equal initial) (λ more. report (errors ++ more)) _
            rest in
        let (clean, equal_states) =
          append-eq-nil errors more (report-nil (errors ++ more) _ last) in
        let (final, loaded, same) = compare_states-nil initial _ (compared ∙ ap ok equal_states) in
        (run_steps-AllTakenBack (reverse steps) s (ran ∙ ap ok clean), final, loaded, same)

    -- A rollback reports success only if every step, from the last to the first, was taken back and
    -- verified, and the state that is loaded at the end equals the one loaded before the steps.
    pub rollback-AllTakenBack :
        (steps : List (RollbackStep S)) (s : S)
        → (rollback load deep_equal steps s).0 ≡ ok tt
        → let s' = (load s).1 in
          AllTakenBack (reverse steps) s'
          × (final : DeploymentState Volume Network) × ((load (run_reversed steps s').1).0
              ≡ ok final)
          × (equal deep_equal (initial_of (load s).0) final ≡ ok true)
    unfolding rollback
    rollback-AllTakenBack steps s h =
        let (initial, loaded, rest) =
          bind-eq-ok first_load
            (λ initial. run_reversed steps >>= λ errors.
              compare_states load deep_equal initial >>= λ more. report (errors ++ more))
            s h in
        let (same_world, is_initial) = first_load_lem s loaded in
        subst (λ initial. Restored steps initial (load s).1) is_initial
          (subst (Restored steps initial) same_world (rollback_from steps initial _ rest))
