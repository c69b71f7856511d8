-- ===== src/Health/Round.antt =====
-- `waitForAll` of uberbase/pkg/health/checker.go as its goroutines run it, for every order in which
-- they are scheduled. A check acts on the world in one step.
pub mod Progress
pub mod Verdict
pub mod Schedule
use uberbase.Common.{
  length, ◌<◌, ℕ, suc, ◌≡◌, Bool, true, false, Option, none, some, List, [], ◌∷◌, ◌++◌,
}

abbrev pub Check : Type 0 → Type 0
Check W = W → Bool × W

-- The caller of a wait: it listens on the channel `healthy`, has been told that all is well, or has
-- given up at the end of its time.
pub data Caller : Type 0 where
  listening : Caller
  served : Caller
  gone : Caller

-- An earlier round: its checks that still run, and how many answers its channel holds. Nobody reads
-- them.
pub record Old (W : Type 0) : Type 0 where
  pub running : List (Check W)
  pub held : ℕ

-- The number of the round, the checks of this round that have not answered, the answers in its
-- channel, what the receiving loop has decided, the caller, the earlier rounds, and the world.
pub record Wait (W : Type 0) : Type 0 where
  pub round : ℕ
  pub running : List (Check W)
  pub results : List Bool
  pub verdict : Option Bool
  pub caller : Caller
  pub stale : List (Old W)
  pub world : W

-- A step of one of the goroutines. The channel of a round has room for as many answers as there are
-- checks, and the channel `healthy` for none.
pub data Step {W : Type 0} (checks : List (Check W)) : Wait W → Wait W → Type 0 where
  answer :
      {r : Wait W} (before : List (Check W)) (check : Check W) (after : List (Check W))
      → r.running ≡ before ++ (check ∷ after)
      → length r.results < length checks
      → Step checks r (record r {
        running = before ++ after;
        results = r.results ++ ((check r.world).0 ∷ []);
        world = (check r.world).1;
      })
  -- a check of an earlier round answers
  late :
      {r : Wait W} (earlier : List (Old W)) (old : Old W) (later : List (Old W))
      (before : List (Check W)) (check : Check W) (after : List (Check W))
      → r.stale ≡ earlier ++ (old ∷ later)
      → old.running ≡ before ++ (check ∷ after)
      → old.held < length checks
      → Step checks r (record r {
        stale = earlier ++ (record { running = before ++ after; held = suc old.held } ∷ later);
        world = (check r.world).1;
      })
  receive_good :
      {r : Wait W} (rest : List Bool)
      → r.verdict ≡ none
      → r.results ≡ true ∷ rest
      → Step checks r (record r { results = rest })
  -- `allHealthy = false` and the `break`
  receive_bad :
      {r : Wait W} (rest : List Bool)
      → r.verdict ≡ none
      → r.results ≡ false ∷ rest
      → Step checks r (record r { results = rest; verdict = some false })
  -- The channel is closed once all have answered, and the loop ends when it is empty.
  close :
      {r : Wait W}
      → r.verdict ≡ none
      → r.running ≡ []
      → r.results ≡ []
      → Step checks r (record r { verdict = some true })
  -- `healthy <- true`, which waits for the caller to receive
  send :
      {r : Wait W}
      → r.verdict ≡ some true
      → r.caller ≡ listening
      → Step checks r (record r { caller = served })
  -- after the pause the next round
  again :
      {r : Wait W}
      → r.verdict ≡ some false
      → Step checks r (record r {
        round = suc r.round;
        running = checks;
        results = [];
        verdict = none;
        stale = r.stale ++ (record { running = r.running; held = length r.results } ∷ []);
      })

abbrev pub start : {W : Type 0} → List (Check W) → W → Wait W
start checks w = record {
  round = 0;
  running = checks;
  results = [];
  verdict = none;
  caller = listening;
  stale = [];
  world = w;
}

pub data Reach {W : Type 0} (checks : List (Check W)) (w : W) : Wait W → Type 0 where
  begin : Reach checks w (start checks w)
  next : {r s : Wait W} → Reach checks w r → Step checks r s → Reach checks w s
  -- the end of the caller's time, which no goroutine of the wait sees
  give_up :
      {r : Wait W}
      → Reach checks w r
      → r.caller ≡ listening
      → Reach checks w (record r { caller = gone })
