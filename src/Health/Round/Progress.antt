-- ===== src/Health/Round/Progress.antt =====
-- Which of the goroutines can go on, and that each round comes to an end.
use mathlib.Core.List.{append-nil}
use mathlib.Core.Path.{subst}
use uberbase.Common.{
  All, sym, ◌++◌, ◌≤◌, ℕ, suc, ◌+◌, ◌*◌, ◌<◌, ◌≡◌, ◌≢◌, refl, ap, ◌⊎◌, inl, inr, Bool, true, false,
  Option, none, some, List, [], ◌∷◌, length, arith,
}
use uberbase.Common.Lists.{All-middle, All-remove, length-append, length-middle}
use uberbase.Health.Round.{
  Old, Caller, listening, served, gone, send, Reach, begin, next, give_up, Check, Wait, Step,
  answer, late, receive_good, receive_bad, close, again,
}

abbrev open_loop : Option Bool → ℕ
open_loop none = 1
open_loop (some b) = 0

abbrev open_caller : Caller → ℕ
open_caller listening = 1
open_caller served = 0
open_caller gone = 0

-- the checks of earlier rounds that still run
abbrev pub stale_checks : {W : Type 0} → List (Old W) → ℕ
stale_checks [] = 0
stale_checks (old ∷ olds) = length old.running + stale_checks olds

-- what is left to do in a round, by the goroutines of earlier ones too
abbrev pub work : {W : Type 0} → Wait W → ℕ
work r =
    2 * length r.running
    + length r.results
    + stale_checks r.stale
    + open_loop r.verdict
    + open_caller r.caller

stale_checks-middle :
    {W : Type 0} (earlier : List (Old W)) (old : Old W) (later : List (Old W))
    → stale_checks (earlier ++ (old ∷ later)) ≡ length old.running + stale_checks (earlier ++ later)
stale_checks-middle [] old later = refl
stale_checks-middle (first ∷ earlier) old later =
    omega (arith, stale_checks-middle earlier old later)

-- a step of this round's goroutines, or the one that begins the next round
abbrev pub Moves : {W : Type 0} → List (Check W) → Wait W → Type 0
Moves checks r = (s : Wait _) × Step checks r s × ((s.stale ≡ r.stale) ⊎ (s.round ≡ suc r.round))

-- There is room in a round's channel for the answer of each of its checks that still runs.
abbrev pub HasRoom : {W : Type 0} → List (Check W) → Old W → Type 0
HasRoom checks old = length old.running + old.held ≤ length checks

module _ {W : Type 0} {checks : List (Check W)} where
  -- Every step but the one that begins a round leaves less to do, and stays in its round: a round
  -- takes finitely many steps, however they are scheduled.
  pub Step-work :
      {r s : Wait W}
      → Step checks r s
      → (s.round ≡ suc r.round) ⊎ ((s.round ≡ r.round) × (work s < work r))
  Step-work (answer {r} before check after e room) = inr (
    refl,
    omega (
      arith,
      length-middle before check after r.running e,
      length-append r.results ((check r.world).0 ∷ []),
    ),
  )
  Step-work (late {r} earlier old later before check after e f room) = inr (
    refl,
    omega (
      arith,
      ap stale_checks e,
      stale_checks-middle earlier old later,
      stale_checks-middle earlier (record { running = before ++ after; held = suc old.held }) later,
      length-middle before check after old.running f,
    ),
  )
  Step-work (receive_good {r} rest v e) = inr (refl, omega (arith, ap length e))
  Step-work (receive_bad {r} rest v e) = inr (refl, omega (arith, ap length e, ap open_loop v))
  Step-work (close {r} v e f) = inr (refl, omega (arith, ap open_loop v))
  Step-work (send {r} v e) = inr (refl, omega (arith, ap open_caller e))
  Step-work (again v) = inl refl

  -- There is room in the channel for the answer of each check that runs.
  Step-room :
      {r s : Wait W}
      → Step checks r s
      → length r.running + length r.results ≤ length checks
      → length s.running + length s.results ≤ length checks
  Step-room (answer {r} before check after e room) h = omega (
    arith,
    h,
    length-middle before check after r.running e,
    length-append r.results ((check r.world).0 ∷ []),
  )
  Step-room (late {r} earlier old later before check after e f room) h = h
  Step-room (receive_good {r} rest v e) h = omega (arith, h, ap length e)
  Step-room (receive_bad {r} rest v e) h = omega (arith, h, ap length e)
  Step-room (close v e f) h = h
  Step-room (send v e) h = h
  Step-room (again v) h = omega arith

  Reach-room :
      {w : W} {r : Wait W} → Reach checks w r → length r.running + length r.results ≤ length checks
  Reach-room begin = omega arith
  Reach-room (next reach step) = Step-room step (Reach-room reach)
  Reach-room (give_up reach e) = Reach-room reach

  Step-stale :
      {r s : Wait W}
      → Step checks r s
      → length r.running + length r.results ≤ length checks
      → All (HasRoom checks) r.stale
      → All (HasRoom checks) s.stale
  Step-stale (answer before check after e room) h a = a
  Step-stale (late {r} earlier old later before check after e f room) h a =
      let (this, others) =
        All-remove (HasRoom checks) earlier old later (subst (All (HasRoom checks)) e a) in
      All-middle (HasRoom checks) earlier
        (record { running = before ++ after; held = suc old.held }) later
        (omega (arith, this, length-middle before check after old.running f)) others
  Step-stale (receive_good rest v e) h a = a
  Step-stale (receive_bad rest v e) h a = a
  Step-stale (close v e f) h a = a
  Step-stale (send v e) h a = a
  Step-stale (again {r} v) h a =
      All-middle (HasRoom checks) r.stale (record { running = r.running; held = length r.results })
        [] h (subst (All (HasRoom checks)) (sym (append-nil r.stale)) a)

  Reach-stale : {w : W} {r : Wait W} → Reach checks w r → All (HasRoom checks) r.stale
  Reach-stale begin = tt
  Reach-stale (next reach step) = Step-stale step (Reach-room reach) (Reach-stale reach)
  Reach-stale (give_up reach e) = Reach-stale reach

  move :
      (r : Wait W) (v : Option Bool) (results : List Bool) (running : List (Check W))
      (caller : Caller)
      → r.verdict ≡ v
      → r.results ≡ results
      → r.running ≡ running
      → r.caller ≡ caller
      → length r.running + length r.results ≤ length checks
      → Moves checks r ⊎ ((r.verdict ≡ some true) × (r.caller ≢ listening))
  move r (some true) results running listening e f g c h = inl (_, send e c, inl refl)
  move r (some true) results running served e f g c h = inr (e, λ k. cc (c, k))
  move r (some true) results running gone e f g c h = inr (e, λ k. cc (c, k))
  move r (some false) results running caller e f g c h = inl (_, again e, inr refl)
  move r none (true ∷ rest) running caller e f g c h = inl (_, receive_good rest e f, inl refl)
  move r none (false ∷ rest) running caller e f g c h = inl (_, receive_bad rest e f, inl refl)
  move r none [] (check ∷ after) caller e f g c h =
      inl (_, answer [] check after g (omega (arith, h, ap length f, ap length g)), inl refl)
  move r none [] [] caller e f g c h = inl (_, close e g f, inl refl)

  blocked :
      {r s : Wait W}
      → Step checks r s
      → r.verdict ≡ some true
      → r.caller ≡ gone
      → (s.verdict ≡ some true) × (s.caller ≡ gone)
  blocked (answer before check after e room) v c = (v, c)
  blocked (late earlier old later before check after e f room) v c = (v, c)
  blocked (receive_good rest u e) v c = (v, c)
  blocked (receive_bad rest u e) v c = absurd (cc (u, v))
  blocked (close u e f) v c = (refl, c)
  blocked (send u e) v c = absurd (cc (e, c))
  blocked (again u) v c = absurd (cc (u, v))

  -- No check of an earlier round waits for room in its channel. And in every state that is reached
  -- this round goes on, or the next one begins, unless the verdict is good and the caller
  -- has been told so or has given up. Where it has given up before it was told, the goroutine waits
  -- for ever: no step changes the verdict or the caller.
  pub Step-exists :
      {w : W} (r : Wait W)
      → Reach checks w r
      → All (HasRoom checks) r.stale
        × (Moves checks r ⊎ ((r.verdict ≡ some true) × (r.caller ≢ listening)))
        × ((s : Wait W)
            → Step checks r s
            → r.verdict ≡ some true
            → r.caller ≡ gone
            → (s.verdict ≡ some true) × (s.caller ≡ gone))
  Step-exists r reach = (
    Reach-stale reach,
    move r r.verdict r.results r.running r.caller refl refl refl refl (Reach-room reach),
    λ s step. blocked step,
  )
