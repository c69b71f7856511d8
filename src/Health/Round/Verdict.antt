-- ===== src/Health/Round/Verdict.antt =====
-- What the verdict of a wait says of its checks.
use mathlib.Core.List.{Mem}
use mathlib.Core.Path.{subst}
use uberbase.Common.{
  ℕ, ◌≡◌, ◌≢◌, refl, sym, ap, ◌∙◌, ◌⊎◌, inl, inr, Bool, true, false, some, List, [], ◌∷◌, ◌++◌, All,
  ◌&&◌, all, length, arith,
}
use uberbase.Common.Lists.{length-middle, All-middle, All-remove, All-Mem}
use uberbase.Health.Round.{
  Check, Wait, Step, answer, late, receive_good, receive_bad, close, again, Reach, begin, next,
  send, give_up, start,
}

and-true : (a b : Bool) → (a && b) ≡ true → (a ≡ true) × (b ≡ true)
and-true a b h = (ground arith, ground arith)

and-false : (a b : Bool) → (a && b) ≡ false → (a ≡ false) ⊎ (b ≡ false)
and-false true b h = inr h
and-false false b h = inl refl

-- none of these answers is no
abbrev pub good : List Bool → Bool
good results = all (λ b. b) results

good-append : (results : List Bool) (b : Bool) → good (results ++ (b ∷ [])) ≡ (good results && b)
good-append [] true = refl
good-append [] false = refl
good-append (true ∷ results) b = good-append results b
good-append (false ∷ results) b = refl

module _ {W : Type 0} (checks : List (Check W)) (w : W) where
  -- In some state of this round the check would answer so, in the world of that state.
  abbrev pub Answered : Bool → ℕ → Check W → Type 0
  Answered b round check =
      (s : Wait W) × Reach checks w s × (s.round ≡ round) × ((check s.world).0 ≡ b)

  -- One of the checks has answered no.
  abbrev pub HasBad : ℕ → Type 0
  HasBad round = (check : Check W) × Mem check checks × Answered false round check

  record Inv (r : Wait W) : Type 0 where
    -- where no answer was bad, the checks are good once those that run are
    sound :
        r.verdict ≢ some false
        → good r.results ≡ true
        → All (Answered true r.round) r.running
        → All (Answered true r.round) checks
    known : All (λ check. Mem check checks) r.running
    finished : r.verdict ≡ some true → (r.running ≡ []) × (r.results ≡ [])
    bad_answer : good r.results ≡ false → HasBad r.round
    bad_verdict : r.verdict ≡ some false → HasBad r.round

  -- an answer of a check that runs, as evidence
  Answered-now :
      {r : Wait W} (before : List (Check W)) (check : Check W) (after : List (Check W)) {b : Bool}
      → Reach checks w r
      → Inv r
      → r.running ≡ before ++ (check ∷ after)
      → (check r.world).0 ≡ b
      → Mem check checks × Answered b r.round check
  Answered-now {r} before check after reach inv e now =
      let (member, others) =
        All-remove (λ c. Mem c checks) before check after
          (subst (All (λ c. Mem c checks)) e inv.known) in
      (member, (r, reach, refl, now))

  known_after :
      {r : Wait W} (before : List (Check W)) (check : Check W) (after : List (Check W))
      → Inv r
      → r.running ≡ before ++ (check ∷ after)
      → All (λ c. Mem c checks) (before ++ after)
  known_after before check after inv e =
      let (member, others) =
        All-remove (λ c. Mem c checks) before check after
          (subst (All (λ c. Mem c checks)) e inv.known) in
      others

  answer-Inv :
      {r : Wait W} (before : List (Check W)) (check : Check W) (after : List (Check W))
      → Reach checks w r
      → (e : r.running ≡ before ++ (check ∷ after)) → Inv r
      → Inv (record r {
        running = before ++ after;
        results = r.results ++ ((check r.world).0 ∷ []);
        world = (check r.world).1;
      })
  answer-Inv {r} before check after reach e inv = record {
    sound = λ v g rest.
        let (g', now) =
          and-true (good r.results) (check r.world).0 (sym (good-append r.results _) ∙ g) in
        inv.sound v g' (
          subst (All (Answered true r.round)) (sym e)
            (All-middle (Answered true r.round) before check after (r, reach, refl, now) rest));
    known = known_after before check after inv e;
    finished = λ v.
        absurd (
          omega
            (arith, ap length (inv.finished v).0, length-middle before check after r.running e));
    bad_answer = λ g.
        elim (and-false (good r.results) (check r.world).0 (sym (good-append r.results _) ∙ g)) [
          | inl earlier ↦ inv.bad_answer earlier
          | inr now ↦
              let (member, evidence) = Answered-now before check after reach inv e now in
              (check, member, evidence)
        ];
    bad_verdict = inv.bad_verdict;
  }

  Step-Inv : {r s : Wait W} → Reach checks w r → Step checks r s → Inv r → Inv s
  Step-Inv reach (answer before check after e room) inv = answer-Inv before check after reach e inv
  Step-Inv reach (send v e) inv = record {
    sound = inv.sound;
    known = inv.known;
    finished = inv.finished;
    bad_answer = inv.bad_answer;
    bad_verdict = inv.bad_verdict;
  }
  Step-Inv reach (late earlier old later before check after e f room) inv = record {
    sound = inv.sound;
    known = inv.known;
    finished = inv.finished;
    bad_answer = inv.bad_answer;
    bad_verdict = inv.bad_verdict;
  }
  Step-Inv reach (receive_good rest v e) inv = record {
    sound = λ h g. inv.sound h (ap good e ∙ g);
    known = inv.known;
    finished = λ h. cc;
    bad_answer = λ g. inv.bad_answer (ap good e ∙ g);
    bad_verdict = inv.bad_verdict;
  }
  Step-Inv reach (receive_bad rest v e) inv = record {
    sound = λ h. absurd (h refl);
    known = inv.known;
    finished = λ h. cc;
    bad_answer = λ g. inv.bad_answer (ap good e);
    bad_verdict = λ h. inv.bad_answer (ap good e);
  }
  Step-Inv reach (close v e f) inv = record {
    sound = λ h. inv.sound (λ k. cc (v, k));
    known = inv.known;
    finished = λ h. (e, f);
    bad_answer = inv.bad_answer;
    bad_verdict = λ h. cc;
  }
  Step-Inv reach (again v) inv = record {
    sound = λ h g rest. rest;
    known = All-Mem checks checks (λ x m. m);
    finished = λ h. cc;
    bad_answer = λ g. cc;
    bad_verdict = λ h. cc;
  }

  start-Inv : Inv (start checks w)
  start-Inv = record {
    sound = λ h g rest. rest;
    known = All-Mem checks checks (λ x m. m);
    finished = λ h. cc;
    bad_answer = λ g. cc;
    bad_verdict = λ h. cc;
  }

  Reach-Inv : {r : Wait W} → Reach checks w r → Inv r
  Reach-Inv begin = start-Inv
  Reach-Inv (next reach step) = Step-Inv reach step (Reach-Inv reach)
  Reach-Inv (give_up reach e) =
      let inv = Reach-Inv reach in
      record {
        sound = inv.sound;
        known = inv.known;
        finished = inv.finished;
        bad_answer = inv.bad_answer;
        bad_verdict = inv.bad_verdict;
      }

  -- However the goroutines are scheduled: where a wait reports that all is well, each check has
  -- answered yes in the last round; and where a round ends with the other verdict, one of its checks
  -- has answered no in it.
  pub verdict_lem :
      (r : Wait W)
      → Reach checks w r
      → (r.verdict ≡ some true → All (Answered true r.round) checks)
        × (r.verdict ≡ some false → HasBad r.round)
  verdict_lem r reach =
      let inv = Reach-Inv reach in
      (
        λ v.
            inv.sound (λ h. cc (v, h)) (ap good (inv.finished v).1)
              (subst (All (Answered true r.round)) (sym (inv.finished v).0) tt),
        inv.bad_verdict,
      )
