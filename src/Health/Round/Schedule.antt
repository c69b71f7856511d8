-- ===== src/Health/Round/Schedule.antt =====
-- The schedule in which the checks of a round answer one after the other: a wait as the functions
-- of the health checker describe it is a run of the goroutines.
use uberbase.Common.{
  ◌+◌, ◌≤◌, length, arith, ℕ, zero, suc, ◌≡◌, refl, sym, ap, ◌∙◌, Bool, true, false, Bool-cases,
  inl, inr, Option, none, some, List, [], ◌∷◌, ◌++◌, map,
}
use mathlib.Core.List.{append-nil, append_assoc}
use mathlib.Core.Path.{subst}
use uberbase.Common.Effect.{ok, Io}
use uberbase.Common.Lists.{length-append}
use uberbase.Health.{run_checks, wait_for_all}
use uberbase.Health.Round.{
  Check, Wait, answer, receive_good, receive_bad, close, again, Reach, begin, next, start,
}
use uberbase.Health.Round.Verdict.{good}

-- a check as an action that never fails
abbrev pub as_action : {W : Type 0} → Check W → Io W Bool
as_action check w = (ok (check w).0, (check w).1)

abbrev answers : {W : Type 0} → List (Check W) → W → List Bool
answers [] w = []
answers (check ∷ checks) w = (check w).0 ∷ answers checks (check w).1

abbrev after : {W : Type 0} → List (Check W) → W → W
after [] w = w
after (check ∷ checks) w = after checks (check w).1

run_checks-answers :
    {W : Type 0} (checks : List (Check W)) (w : W)
    → run_checks (map as_action checks) w ≡ (ok (good (answers checks w)), after checks w)
unfolding run_checks
run_checks-answers [] w = refl
run_checks-answers (check ∷ checks) w = rw (run_checks-answers checks (check w).1)

module _ {W : Type 0} (checks : List (Check W)) (rounds : ℕ) (v : W) where
  wait_good :
      good (answers checks v) ≡ true
      → wait_for_all (suc rounds) (map as_action checks) v ≡ (ok true, after checks v)
  unfolding wait_for_all
  wait_good h = rw (run_checks-answers checks v, h)

  wait_bad :
      good (answers checks v) ≡ false
      → wait_for_all (suc rounds) (map as_action checks) v
        ≡ wait_for_all rounds (map as_action checks) (after checks v)
  unfolding wait_for_all
  wait_bad h = rw (run_checks-answers checks v, h)

module _ {W : Type 0} (checks : List (Check W)) (w : W) where
  -- a state of the machine with these parts, whatever its round and its old checks
  record At (running : List (Check W)) (results : List Bool) (verdict : Option Bool) (v : W)
      : Type 0 where
    state : Wait W
    reach : Reach checks w state
    is_running : state.running ≡ running
    is_results : state.results ≡ results
    is_verdict : state.verdict ≡ verdict
    is_world : state.world ≡ v

  answer_all :
      (running : List (Check W)) (results : List Bool) (v : W)
      → length results + length running ≤ length checks
      → At running results none v
      → At [] (results ++ answers running v) none (after running v)
  answer_all [] results v h a = subst (λ rs. At [] rs none v) (sym (append-nil results)) a
  answer_all (check ∷ rest) results v h a =
      subst (λ rs. At [] rs none (after rest (check v).1))
        (append_assoc results ((check v).0 ∷ []) (answers rest (check v).1))
        (answer_all rest (results ++ ((check v).0 ∷ [])) (check v).1
          (omega (arith, h, length-append results ((check v).0 ∷ [])))
          (record {
            state = _;
            reach =
                next a.reach
                  (answer [] check rest a.is_running (omega (arith, h, ap length a.is_results)));
            is_running = refl;
            is_results = cc (a.is_results, a.is_world);
            is_verdict = a.is_verdict;
            is_world = cc a.is_world;
          }))

  receive_all :
      (results : List Bool) (v : W)
      → At [] results none v
      → (rest : List Bool) × At [] rest (some (good results)) v
  receive_all [] v a = (
    [],
    record {
      state = _;
      reach = next a.reach (close a.is_verdict a.is_running a.is_results);
      is_running = a.is_running;
      is_results = a.is_results;
      is_verdict = refl;
      is_world = a.is_world;
    },
  )
  receive_all (true ∷ results) v a = receive_all results v (record {
    state = _;
    reach = next a.reach (receive_good results a.is_verdict a.is_results);
    is_running = a.is_running;
    is_results = refl;
    is_verdict = a.is_verdict;
    is_world = a.is_world;
  })
  receive_all (false ∷ results) v a = (
    results,
    record {
      state = _;
      reach = next a.reach (receive_bad results a.is_verdict a.is_results);
      is_running = a.is_running;
      is_results = refl;
      is_verdict = refl;
      is_world = a.is_world;
    },
  )

  whole_round :
      (v : W)
      → At checks [] none v
      → (rest : List Bool) × At [] rest (some (good (answers checks v))) (after checks v)
  whole_round v a =
      receive_all (answers checks v) (after checks v) (answer_all checks [] v (omega arith) a)

  begin_again : (rest : List Bool) (v : W) → At [] rest (some false) v → At checks [] none v
  begin_again rest v a = record {
    state = _;
    reach = next a.reach (again a.is_verdict);
    is_running = refl;
    is_results = refl;
    is_verdict = refl;
    is_world = a.is_world;
  }

  rounds-At :
      (rounds : ℕ) (v : W)
      → At checks [] none v
      → (wait_for_all rounds (map as_action checks) v).0 ≡ ok true
      → (rest : List Bool) × At [] rest (some true) (wait_for_all rounds (map as_action checks) v).1
  rounds-At zero v a h = unfold wait_for_all in cc h
  rounds-At (suc rounds) v a h =
      let (rest, ended) = whole_round v a in
      elim (Bool-cases (good (answers checks v))) [
        | inl well ↦ (
          rest,
          subst (λ x. At [] rest (some true) x.1) (sym (wait_good checks rounds v well))
              (subst (λ b. At [] rest (some b) (after checks v)) well ended),
        )
        | inr ill ↦
            let (rest', done) =
              rounds-At rounds (after checks v)
                (begin_again rest (after checks v)
                  (subst (λ b. At [] rest (some b) (after checks v)) ill ended))
                (sym (ap (λ x. x.0) (wait_bad checks rounds v ill)) ∙ h) in
            (
              rest',
              subst (λ x. At [] rest' (some true) x.1) (sym (wait_bad checks rounds v ill)) done,
            )
      ]

  -- Where the waiting function succeeds, the goroutines can be scheduled so that they report that
  -- all is well, in the same world.
  pub wait_for_all-Reach :
      (rounds : ℕ)
      → (wait_for_all rounds (map as_action checks) w).0 ≡ ok true
      → (s : Wait W) × Reach checks w s
        × (s.verdict ≡ some true)
        × (s.world ≡ (wait_for_all rounds (map as_action checks) w).1)
  wait_for_all-Reach rounds h =
      let (rest, ended) =
        rounds-At rounds w
          (record {
            state = start checks w;
            reach = begin;
            is_running = refl;
            is_results = refl;
            is_verdict = refl;
            is_world = refl;
          })
          h in
      (ended.state, ended.reach, ended.is_verdict, ended.is_world)
