-- ===== src/Health/Laws.antt =====
-- When waiting succeeds.
use uberbase.Common.{String, ℕ, zero, suc, ◌<◌, ◌≡◌, refl, Bool, true, false, List, [], ◌∷◌, arith}
use uberbase.Common.Effect.{Panic, Result, ok, err, panicked, Io}
use uberbase.Health.{run_checks, wait_for_all}

data RoundCases (r : Result Bool) : Type 0 where
  good : r ≡ ok true → RoundCases r
  bad : r ≡ ok false → RoundCases r
  failed : (e : String) → r ≡ err e → RoundCases r
  crashed : (e : Panic) → r ≡ panicked e → RoundCases r

round_cases : (r : Result Bool) → RoundCases r
round_cases (ok true) = good refl
round_cases (ok false) = bad refl
round_cases (err e) = failed e refl
round_cases (panicked e) = crashed e refl

module _ {W : Type 0} (checks : List (Io W Bool)) where
  -- the world after some rounds
  abbrev pub after_rounds : ℕ → W → W
  after_rounds zero w = w
  after_rounds (suc n) w = after_rounds n (run_checks checks w).1

  -- Waiting succeeds only if a round was good that ended in time.
  pub wait_for_all_good :
      (rounds : ℕ) (w : W)
      → (wait_for_all rounds checks w).0 ≡ ok true
      → (n : ℕ) × (n < rounds) × ((run_checks checks (after_rounds n w)).0 ≡ ok true)
  unfolding wait_for_all
  wait_for_all_good zero w h = cc
  wait_for_all_good (suc rounds) w h = elim (round_cases (run_checks checks w).0) [
    | good e ↦ (0, omega arith, e)
    | bad e ↦
        let (n, small, e') = wait_for_all_good rounds (run_checks checks w).1 (ground (arith, h)) in
        (suc n, omega arith, e')
    | failed e f ↦ absurd (ground (arith, h))
    | crashed e f ↦ absurd (ground (arith, h))
  ]

  -- Where waiting ends in time without success, every round was bad.
  pub wait_for_all_bad :
      (rounds : ℕ) (w : W)
      → (wait_for_all rounds checks w).0 ≡ ok false
      → (n : ℕ) → n < rounds
      → (run_checks checks (after_rounds n w)).0 ≡ ok false
  unfolding wait_for_all
  wait_for_all_bad zero w h n small = absurd (omega arith)
  wait_for_all_bad (suc rounds) w h zero small = ground (arith, h)
  wait_for_all_bad (suc rounds) w h (suc n) small =
      wait_for_all_bad rounds (run_checks checks w).1 (ground (arith, h)) n (omega arith)

-- A round is good only if each check, at its turn, was good.
abbrev pub EachGood : {W : Type 0} → List (Io W Bool) → W → Type 0
EachGood [] w = Unit
EachGood (check ∷ checks) w = ((check w).0 ≡ ok true) × EachGood checks (check w).1

pub run_checks_sound :
    {W : Type 0} (checks : List (Io W Bool)) (w : W)
    → (run_checks checks w).0 ≡ ok true
    → EachGood checks w
unfolding run_checks
run_checks_sound [] w h = tt
run_checks_sound (check ∷ checks) w h =
    (ground (arith, h), run_checks_sound checks (check w).1 (ground (arith, h)))

pub run_checks_complete :
    {W : Type 0} (checks : List (Io W Bool)) (w : W)
    → EachGood checks w
    → (run_checks checks w).0 ≡ ok true
unfolding run_checks
run_checks_complete [] w h = refl
run_checks_complete (check ∷ checks) w (h, k) =
    ground (arith, run_checks_complete checks (check w).1 k)

-- Waiting for all checks succeeds only if there was a round, ended in time, in which each check was
-- good at its turn.
pub wait_for_all_sound :
    {W : Type 0} (checks : List (Io W Bool)) (rounds : ℕ) (w : W)
    → (wait_for_all rounds checks w).0 ≡ ok true
    → (n : ℕ) × (n < rounds) × EachGood checks (after_rounds checks n w)
wait_for_all_sound checks rounds w h =
    let (n, small, e) = wait_for_all_good checks rounds w h in
    (n, small, run_checks_sound checks (after_rounds checks n w) e)

-- Waiting that ends without success has seen no such round.
pub wait_for_all_complete :
    {W : Type 0} (checks : List (Io W Bool)) (rounds : ℕ) (w : W)
    → (wait_for_all rounds checks w).0 ≡ ok false
    → (n : ℕ) → n < rounds
    → ¬ EachGood checks (after_rounds checks n w)
wait_for_all_complete checks rounds w h n small each = cc (
  wait_for_all_bad checks rounds w h n small,
  run_checks_complete checks (after_rounds checks n w) each,
)
