-- ===== src/Deploy/Project/Run/Laws.antt =====
-- How a deployment ends: with the state of its state manager, with an error, or with a panic.
use uberbase.Common.{
  String, ◌≡◌, ◌≢◌, refl, ap, Option, none, some, List, [], ◌∷◌, ◌++◌, ◌==◌, eq_iff, if◌then◌else◌,
  arith,
}
use uberbase.Common.Effect.{elsewhere, here, nil_dereference, Result, ok, err, panicked, Io, ◌>>=◌}
use uberbase.Common.Effect.Laws.{either_rule}
use uberbase.State.{ComposeState, DeploymentState}
use uberbase.State.Manager.{StateManager}
use uberbase.State.Manager.Laws.{update_unset}
use uberbase.LoadBalancer.Traffic
use uberbase.LoadBalancer.Traffic.{TrafficManager, get_dynamic_configs}
use uberbase.Deploy.Project.Steps.{override_step, up_step, traffic_step}
use uberbase.Containers.Override.{Overrides, new_compose_override}
use uberbase.Deploy.Rollback.{RollbackStep, add_rollback_step}
use uberbase.Deploy.Project.{
  External, Deployer, Site, Progress, Outcome, on_traffic, on_site, at_world, register,
}
use uberbase.Core.{Executor}
use uberbase.Containers.{ComposeProject}
use uberbase.Common.Effect.{wrap}
use uberbase.Common.Effect.Laws.{bind-eq-ok}
use uberbase.Deploy.Project.Run.{
  new_deployer, run_deployer, deploy_command, remove_old, send_files, start_containers,
  route_traffic, stop_old, deploy_with, announce, Deployed, deploy_containers, update_state, finish,
  deploy_body, take_back, recover, leave, deploy_project,
}

-- where an action ends without an error, these are the steps
abbrev pub EndsWith :
    {W B : Type 0} → (B → List (RollbackStep (Site W))) → Result B × Progress W → Type 0
EndsWith {B} steps q = (b : B) → q.0 ≡ ok b → q.1.steps ≡ steps b

module _ {W A B : Type 0} (steps : B → List (RollbackStep (Site W))) where
  EndsWith-bind :
      (m : Io (Progress W) A) (f : A → Io (Progress W) B) (p : Progress W)
      → ((a : A) (q : Progress W) → (m p).0 ≡ ok a → (m p).1 ≡ q → EndsWith steps (f a q))
      → EndsWith steps ((m >>= f) p)
  EndsWith-bind m f p h =
      either_rule (EndsWith steps) m f _ p (λ a e. h a _ e refl) (λ e _ b k. cc) (λ e _ b k. cc)

module _ {Volume Network W : Type 0} (x : External Volume Network W) (d : Deployer W) where
  recover-eq-err :
      (text : String) (steps : List (RollbackStep (Site W))) (o : Outcome Volume Network W)
      → (recover x d text steps o).0 ≢ ok tt
  unfolding recover
  recover-eq-err text steps o =
      either_rule (λ p. p.0 ≢ ok tt) (take_back x d steps) _ _ o.site (λ _ _ h. cc) (λ _ _ h. cc)
        (λ _ _ h. cc)

  leave-eq-ok :
      (r : Result (Unit {0})) (steps : List (RollbackStep (Site W))) (o : Outcome Volume Network W)
      → (leave x d r steps o).0 ≡ ok tt
      → r ≡ ok tt
  unfolding leave
  leave-eq-ok (ok u) steps o h = refl
  leave-eq-ok (err e) steps o h = cc
  leave-eq-ok (panicked (here e)) steps o h = absurd (recover-eq-err e steps o h)
  leave-eq-ok (panicked (elsewhere e)) steps o h = cc

  update_state_unset :
      (done : Deployed Volume Network) (s : Site W) (m : StateManager Volume Network W)
      → m.current_state.compose ≡ none
      → update_state x d done s m ≡ (panicked (here nil_dereference), m)
  unfolding update_state
  update_state_unset done s m h = rw (
      update_unset d.remote_executor.exec x.codec x.paths d.remote_work_dir done.overrides
        (get_dynamic_configs s.traffic.dynamic_configs) done.tag m h)

  pub finish-panics :
      (done : Deployed Volume Network) (p : Progress W) (state : DeploymentState Volume Network)
      → state.compose ≡ none
      → finish x d (ok done) p state ≡ (
        panicked (here nil_dereference),
        p.steps,
        record { current_state = state; site = p.site },
      )
  unfolding finish
  finish-panics done p state h = rw (
      update_state_unset done p.site
        (record { current_state = state; world = p.site.traffic.world }) h)

  finish-unset :
      (r : Result (Deployed Volume Network)) (p : Progress W)
      (state : DeploymentState Volume Network)
      → state.compose ≡ none
      → (finish x d r p state).0 ≢ ok tt
  unfolding finish
  finish-unset (ok done) p state h k = cc (ap (λ q. q.0) (finish-panics done p state h), k)
  finish-unset (err e) p state h k = cc
  finish-unset (panicked e) p state h k = cc

  -- A deployment whose state manager holds no compose section never succeeds, whatever the hosts
  -- answer: where all else goes well, the update of the state panics.
  deploy_project-unset :
      (o : Outcome Volume Network W)
      → o.current_state.compose ≡ none
      → (deploy_project x d o).0 ≢ ok tt
  unfolding deploy_project deploy_body
  deploy_project-unset o h k =
      let (r, p) = deploy_containers x d (record { steps = []; site = o.site }) in
      finish-unset r p o.current_state h (leave-eq-ok _ _ _ k)

  -- The way back for the traffic changes nothing: it asks the traffic manager for the tag that its
  -- state already has. It is an error where the old state has no tag.
  pub traffic_step-rollback :
      (state : DeploymentState Volume Network) (s : Site W)
      → (traffic_step x d state).rollback s ≡ (
        if state.tag == ""
            then err "failed to rollback traffic: container tag cannot be empty"
            else ok tt,
        s,
      )
  unfolding traffic_step Traffic.deploy on_traffic
  traffic_step-rollback state s = ground (arith, eq_iff state.tag "", eq_iff state.tag state.tag)

  send_files-steps :
      (overrides : Overrides) (p : Progress W) {path : String}
      → (send_files x d overrides p).0 ≡ ok path
      → (send_files x d overrides p).1.steps ≡ p.steps ++ (override_step x d path ∷ [])
  unfolding send_files at_world on_site register add_rollback_step
  send_files-steps overrides p h = ground arith

  start_containers-steps :
      (tag : String) (overrides : Overrides) (path : String) (p : Progress W)
      → (start_containers x d tag overrides path p).0 ≡ ok tt
      → (start_containers x d tag overrides path p).1.steps
        ≡ p.steps ++ (up_step x d overrides path ∷ [])
  unfolding start_containers at_world on_site register add_rollback_step
  start_containers-steps tag overrides path p h = ground arith

  route_traffic-steps :
      (tag : String) (state : DeploymentState Volume Network) (p : Progress W)
      → (route_traffic x d tag state p).0 ≡ ok tt
      → (route_traffic x d tag state p).1.steps ≡ p.steps ++ (traffic_step x d state ∷ [])
  unfolding route_traffic on_site register add_rollback_step
  route_traffic-steps tag state p h = ground arith

  stop_old-steps :
      (tag path : String) (c : Option (ComposeState Volume Network)) (p : Progress W)
      → (stop_old x d tag path c p).1.steps ≡ p.steps
  unfolding stop_old remove_old on_site
  stop_old-steps tag path none p = refl
  stop_old-steps tag path (some c) p = ground arith

  -- the steps that are registered where all goes well
  abbrev pub all_steps : Deployed Volume Network → List (RollbackStep (Site W))
  all_steps done =
      override_step x d done.override_path
      ∷ up_step x d done.overrides done.override_path
      ∷ traffic_step x d done.old_state
      ∷ []

  deploy_with-steps :
      (tag : String) (state : DeploymentState Volume Network) (p : Progress W)
      → p.steps ≡ []
      → EndsWith all_steps (deploy_with x d tag state p)
  unfolding deploy_with
  deploy_with-steps tag state p none_yet =
      let overrides = new_compose_override d.compose.services tag in
      EndsWith-bind all_steps (send_files x d overrides) _ p λ path p1 sent is_p1.
        EndsWith-bind all_steps (start_containers x d tag overrides path) _ p1 λ _ p2 started is_p2.
          EndsWith-bind all_steps (route_traffic x d tag state) _ p2 λ _ p3 routed is_p3.
            EndsWith-bind all_steps (stop_old x d tag path state.compose) _ p3
              λ _ p4 stopped is_p4 done is_done. ground (
                arith,
                is_done,
                send_files-steps overrides p sent,
                start_containers-steps tag overrides path p1 started,
                route_traffic-steps tag state p2 routed,
                stop_old-steps tag path state.compose p3,
              )

  pub deploy_containers-steps :
      (s : Site W) → EndsWith all_steps (deploy_containers x d (record { steps = []; site = s }))
  unfolding deploy_containers at_world on_site
  deploy_containers-steps s =
      EndsWith-bind all_steps (at_world (announce x d)) _ (record { steps = []; site = s })
        λ found p e is_p. deploy_with-steps found.0 found.1 p (ground (arith, is_p))

  abbrev pub leave_all :
      Result (Unit {0}) × List (RollbackStep (Site W)) × Outcome Volume Network W
      → Result (Unit {0}) × Outcome Volume Network W
  leave_all q = leave x d q.0 q.1 q.2

-- No deployment that the command makes succeeds, whatever the project, the hosts and the libraries
-- do: the state manager of a new deployer holds no compose section, and never gets one.
pub deploy_command-fails :
    {Volume Network W : Type 0} (x : External Volume Network W)
    (local_executor remote_executor : Executor W) (compose : ComposeProject)
    (local_work_dir remote_work_dir : String) (w : W)
    → (deploy_command x local_executor remote_executor compose local_work_dir remote_work_dir w).0
      ≢ ok tt
unfolding deploy_command run_deployer
deploy_command-fails x local_executor remote_executor compose local_work_dir remote_work_dir w h =
    let (d, made, ran) =
      bind-eq-ok
        (wrap "failed to create deployer: "
          (new_deployer local_executor remote_executor compose local_work_dir remote_work_dir))
        (run_deployer x) w h in
    deploy_project-unset x d _ refl ran
