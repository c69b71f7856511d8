-- ===== src/Deploy/Project/Adding.antt =====
-- Which rollback steps an action registers, however it ends.
use uberbase.Common.{
  String, ◌≡◌, refl, sym, ap, ◌∙◌, Bool, true, false, List, [], ◌∷◌, ◌++◌, map, if◌then◌else◌,
}
use mathlib.Core.List.{append-nil, append_assoc, map-append}
use uberbase.Common.Effect.{pure, fail, Result, ok, panicked, Io, wrap, ◌>>=◌}
use uberbase.Common.Effect.Laws.{either_rule, wrap-eq-ok}
use uberbase.Deploy.Rollback.{RollbackStep, add_rollback_step}
use uberbase.Deploy.Project.{Site, Progress, on_site, at_world, register}

abbrev pub step_names : {W : Type 0} → List (RollbackStep (Site W)) → List String
step_names steps = map (λ step. step.name) steps

module _ {W : Type 0} where
  -- An action has added steps of these names, in this order: all of them if it succeeds, and
  -- otherwise the first ones.
  pub record Adds {A : Type 0} (allowed : List String) (p : Progress W) (q : Result A × Progress W)
      : Type 0 where
    pub taken : List String
    pub rest : List String
    pub in_order : allowed ≡ taken ++ rest
    pub registered : step_names q.1.steps ≡ step_names p.steps ++ taken
    pub whole : (a : A) → q.0 ≡ ok a → rest ≡ []

  -- the same, whatever the action begins with
  abbrev pub Adding : {A : Type 0} → List String → Io (Progress W) A → Type 0
  Adding allowed m = (p : Progress W) → Adds allowed p (m p)

  module _ {A : Type 0} where
    pub Adds-none : (p : Progress W) (q : Result A × Progress W) → q.1.steps ≡ p.steps → Adds [] p q
    Adds-none p q e = record {
      taken = [];
      rest = [];
      in_order = refl;
      registered = ap step_names e ∙ sym (append-nil (step_names p.steps));
      whole = λ a h. refl;
    }

    -- An action that fails may have been about to add any steps.
    Adds-nothing :
        (allowed : List String) (p : Progress W) (q : Result A × Progress W)
        → q.1.steps ≡ p.steps
        → ((a : A) → q.0 ≡ ok a → ⊥)
        → Adds allowed p q
    Adds-nothing allowed p q e bad = record {
      taken = [];
      rest = allowed;
      in_order = refl;
      registered = ap step_names e ∙ sym (append-nil (step_names p.steps));
      whole = λ a h. absurd (bad a h);
    }

    pub Adding-on_site : (m : Io (Site W) A) → Adding [] (on_site m)
    unfolding on_site
    Adding-on_site m p = Adds-none p _ refl

    pub Adding-at_world : (m : Io W A) → Adding [] (at_world m)
    unfolding at_world on_site
    Adding-at_world m p = Adds-none p _ refl

    pub Adding-pure : (a : A) → Adding [] (pure a)
    Adding-pure a p = Adds-none p _ refl

    pub Adding-fail : (allowed : List String) (e : String) → Adding {A = A} allowed (fail e)
    Adding-fail allowed e p = Adds-nothing allowed p _ refl (λ a h. cc h)

    pub Adding-wrap :
        (allowed : List String) (text : String) (m : Io (Progress W) A)
        → Adding allowed m
        → Adding allowed (wrap text m)
    Adding-wrap allowed text m h p =
        let adds = h p in
        record {
          taken = adds.taken;
          rest = adds.rest;
          in_order = adds.in_order;
          registered = adds.registered;
          whole = λ a e. adds.whole a (wrap-eq-ok text m p e);
        }

    pub Adding-if :
        (allowed : List String) (t : Bool) (m n : Io (Progress W) A)
        → Adding allowed m
        → Adding allowed n
        → Adding allowed (if t then m else n)
    Adding-if allowed true m n h k = h
    Adding-if allowed false m n h k = k

  module _ {A B : Type 0} where
    -- an action that ends early has added the first ones of more
    Adds-early :
        (early late : List String) (p : Progress W) (q : Result B × Progress W)
        → ((b : B) → q.0 ≡ ok b → ⊥)
        → (first : Result A × Progress W) → first.1 ≡ q.1
        → Adds early p first
        → Adds (early ++ late) p q
    Adds-early early late p q bad first e adds = record {
      taken = adds.taken;
      rest = adds.rest ++ late;
      in_order = ap (λ l. l ++ late) adds.in_order ∙ append_assoc adds.taken adds.rest late;
      registered = ap (λ r. step_names r.steps) (sym e) ∙ adds.registered;
      whole = λ b h. absurd (bad b h);
    }

    Adds-both :
        (early late : List String) (p : Progress W) (first : Result A × Progress W) (a : A)
        (q : Result B × Progress W)
        → first.0 ≡ ok a
        → Adds early p first
        → Adds late first.1 q
        → Adds (early ++ late) p q
    Adds-both early late p first a q well adds more =
        let all_taken =
          adds.in_order ∙ ap (λ l. adds.taken ++ l) (adds.whole a well) ∙ append-nil adds.taken in
        record {
          taken = early ++ more.taken;
          rest = more.rest;
          in_order =
              ap (λ l. early ++ l) more.in_order ∙ sym (append_assoc early more.taken more.rest);
          registered =
              more.registered
              ∙ ap (λ l. l ++ more.taken)
                  (adds.registered ∙ ap (λ l. step_names p.steps ++ l) (sym all_taken))
              ∙ append_assoc (step_names p.steps) early more.taken;
          whole = more.whole;
        }

    pub Adding-bind :
        (early late : List String) (m : Io (Progress W) A) (f : A → Io (Progress W) B)
        → Adding early m
        → ((a : A) → Adding late (f a))
        → Adding (early ++ late) (m >>= f)
    Adding-bind early late m f h k p =
        either_rule (Adds (early ++ late) p) m f fail p
          (λ a e. Adds-both early late p (m p) a (f a (m p).1) e (h p) (k a (m p).1))
          (λ e r. Adds-early early late p (fail e (m p).1) (λ b i. cc i) (m p) refl (h p))
          (λ e r. Adds-early early late p (panicked e, (m p).1) (λ b i. cc i) (m p) refl (h p))

  pub Adding-register : (step : RollbackStep (Site W)) → Adding (step.name ∷ []) (register step)
  unfolding register add_rollback_step
  Adding-register step p = record {
    taken = step.name ∷ [];
    rest = [];
    in_order = refl;
    registered = map-append (λ s. s.name) p.steps (step ∷ []);
    whole = λ a h. refl;
  }
