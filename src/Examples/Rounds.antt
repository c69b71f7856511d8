-- ===== src/Examples/Rounds.antt =====
-- The goroutines of a wait for health.
use uberbase.Common.{
  ◌≢◌, arith, ℕ, suc, ◌<◌, ◌≡◌, refl, ◌⊎◌, true, false, some, List, [], ◌∷◌, map, leb, All,
}
use uberbase.Health.{run_checks, wait_for_all}
use uberbase.Health.Round.{
  listening, gone, give_up, Check, Wait, Step, answer, receive_good, close, Reach, begin, next,
  start,
}
use uberbase.Health.Round.Progress.{HasRoom, Moves, work, Step-work, Step-exists}
use uberbase.Health.Round.Verdict.{Answered, HasBad, verdict_lem}
use uberbase.Health.Round.Schedule.{as_action, wait_for_all-Reach}

-- a service that is well from the second request on
abbrev probe : Check ℕ
probe w = (leb 1 w, suc w)

abbrev probes : List (Check ℕ)
probes = probe ∷ probe ∷ []

abbrev one_answered : Wait ℕ
one_answered = record (start probes 1) { running = probe ∷ []; results = true ∷ []; world = 2 }

abbrev first_answer : Step probes (start probes 1) one_answered
first_answer = answer [] probe (probe ∷ []) refl (omega arith)

Step-work_example :
    (one_answered.round ≡ suc (start probes 1).round)
    ⊎ ((one_answered.round ≡ (start probes 1).round) × (work one_answered < work (start probes 1)))
Step-work_example = Step-work first_answer

-- a round in which the later check answers first
abbrev done : Wait ℕ
done = record (start probes 1) { running = []; results = []; verdict = some true; world = 3 }

abbrev done-Reach : Reach probes 1 done
done-Reach =
    next
      (next
        (next
          (next (next begin (answer (probe ∷ []) probe [] refl (omega arith)))
            (answer [] probe [] refl (omega arith)))
          (receive_good (true ∷ []) refl refl))
        (receive_good [] refl refl))
      (close refl refl refl)

-- the same, when the caller has stopped to wait before it was told
abbrev unheard : Wait ℕ
unheard = record done { caller = gone }

Step-exists_example :
    All (HasRoom probes) unheard.stale
    × (Moves probes unheard ⊎ ((unheard.verdict ≡ some true) × (unheard.caller ≢ listening)))
    × ((s : Wait ℕ)
        → Step probes unheard s
        → unheard.verdict ≡ some true
        → unheard.caller ≡ gone
        → (s.verdict ≡ some true) × (s.caller ≡ gone))
Step-exists_example = Step-exists unheard (give_up done-Reach refl)

verdict_lem_example :
    (done.verdict ≡ some true → All (Answered probes 1 true 0) probes)
    × (done.verdict ≡ some false → HasBad probes 1 0)
verdict_lem_example = verdict_lem probes 1 done done-Reach

wait_for_all-Reach_example :
    (s : Wait ℕ) × Reach probes 0 s
    × (s.verdict ≡ some true)
    × (s.world ≡ (wait_for_all 2 (map as_action probes) 0).1)
unfolding wait_for_all run_checks
wait_for_all-Reach_example = wait_for_all-Reach probes 0 2 refl
