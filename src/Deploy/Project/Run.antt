-- ===== src/Deploy/Project/Run.antt =====
-- `NewDeployer` and `DeployProject`.
pub mod Laws
pub mod Registered
pub mod Recovered
use uberbase.Common.{String, ◌<>◌, not, Bool, Option, none, some, List, [], ◌∷◌, if◌then◌else◌}
use uberbase.Common.Text.{join}
use uberbase.Common.Dict.{values}
use uberbase.Common.Effect.{
  here, elsewhere, nil_dereference, Result, ok, err, panicked, Io, pure, fail, crash, wrap, resume,
  either, ◌>>=◌, ◌>>◌,
}
use uberbase.Core.{Executor}
use uberbase.Containers.{Service, ComposeProject, ContainerExecutor}
use uberbase.Containers.Image
use uberbase.Containers.Runtime.{new_container_manager, container_executor}
use uberbase.Containers.Override
use uberbase.Containers.Override.{Overrides, new_compose_override}
use uberbase.State.{ComposeState, DeploymentState, zero_state}
use uberbase.State.Manager
use uberbase.State.Manager.{StateManager}
use uberbase.Health.{wait_for_containers}
use uberbase.LoadBalancer.Traffic
use uberbase.LoadBalancer.Traffic.{TrafficManager, get_dynamic_configs}
use uberbase.Git.{GitManager, get_current_commit, new_git_manager}
use uberbase.Deploy.Rollback.{RollbackStep, rollback}
use uberbase.Deploy.Project.{
  External, Deployer, Site, Progress, Outcome, on_traffic, on_world, on_site, at_world, register,
  old_containers, bring_up, bring_down,
}
use uberbase.Deploy.Project.Steps.{override_step, up_step, traffic_step}

-- `NewDeployer`
unfoldable pub new_deployer :
    {W : Type 0} → Executor W → Executor W → ComposeProject → String → String → Io W (Deployer W)
unfolding new_container_manager new_git_manager
new_deployer local_executor remote_executor compose local_work_dir remote_work_dir = do
  local_executor.verify
  connected ← remote_executor.test
  if not connected then fail "could not connect to remote server" else do
    remote_executor.verify
    local_runtime ←
        wrap "failed to create local container manager: "
          (new_container_manager local_executor.exec)
    remote_runtime ←
        wrap "failed to create remote container manager: "
          (new_container_manager remote_executor.exec)
    git ←
        wrap "failed to create git manager: "
          (new_git_manager local_executor.exec remote_executor.exec local_work_dir remote_work_dir)
    pure (record {
      compose = compose;
      git_manager = git;
      local_containers = container_executor local_executor.exec local_runtime;
      remote_containers = container_executor remote_executor.exec remote_runtime;
      local_executor = local_executor;
      remote_executor = remote_executor;
      local_work_dir = local_work_dir;
      remote_work_dir = remote_work_dir;
    })

-- What a deployment has found out once the traffic goes to the new containers.
pub record Deployed (Volume Network : Type 0) : Type 0 where
  pub tag : String
  pub overrides : Overrides
  pub override_path : String
  pub old_state : DeploymentState Volume Network

module _ {Volume Network W : Type 0} (x : External Volume Network W) (d : Deployer W) where
  abbrev compose_path : String
  compose_path = x.paths.join d.remote_work_dir "docker-compose.yml"

  -- until the old state is loaded
  announce : Io W (String × DeploymentState Volume Network)
  unfolding get_current_commit Image.build Image.push Manager.load
  announce =
      wrap "failed to get current git commit: " (
        get_current_commit d.local_executor.exec d.remote_executor.exec
          d.git_manager.local_work_dir)
      >>= λ tag.
          wrap "failed to build new versions: "
            (Image.build d.local_containers.exec tag d.compose.services)
          >> wrap "failed to push new versions: "
              (Image.push d.local_containers.exec tag d.compose.services)
          >> wrap "failed to create remote work directory: "
              (d.remote_executor.exec ("mkdir -p " <> d.remote_work_dir))
          >> wrap "failed to load current state: "
              (Manager.load d.remote_executor.exec x.codec x.paths d.remote_work_dir)
          >>= λ state w. (ok (tag, state), w)

  -- `d.compose.RemoteFilePath = …`
  keep_path : Io (Site W) (Unit {0})
  keep_path s = (ok tt, record s { remote_file_path = compose_path })

  -- the two files that are sent, until the first step is registered
  send_files : Overrides → Io (Progress W) String
  unfolding at_world on_site keep_path Override.write_to_file register override_step
  send_files overrides =
      wrap "failed to send docker-compose.yml to remote server: "
        (at_world (d.remote_executor.send_file d.compose.local_file_path compose_path))
      >> (on_site keep_path
          >> (wrap "failed to write override file: " (
                at_world (
                  Override.write_to_file d.remote_executor.exec x.encode_override x.paths.join
                    overrides d.remote_work_dir))
              >>= λ override_path.
                  register (override_step x d override_path) >> pure override_path))

  -- the new containers, until the second step is registered
  start_containers : String → Overrides → String → Io (Progress W) (Unit {0})
  unfolding at_world on_site Image.pull bring_up wait_for_containers register up_step
  start_containers tag overrides override_path =
      wrap "failed to pull new containers: "
        (at_world (Image.pull d.remote_containers.exec tag d.compose.services))
      >> (wrap "failed to bring up new containers: " (on_site (bring_up d override_path))
          >> (at_world (
                wait_for_containers d.remote_containers x.decode_inspect x.container_rounds
                  overrides)
              >>= λ healthy.
                  if healthy
                  then register (up_step x d overrides override_path)
                  else fail "timed out waiting for new containers to be healthy"))

  -- the traffic, until the third step is registered
  route_traffic : String → DeploymentState Volume Network → Io (Progress W) (Unit {0})
  unfolding on_site on_traffic Traffic.load Traffic.deploy register traffic_step
  route_traffic tag state =
      wrap "failed to load traffic manager: " (on_site (on_traffic (Traffic.load x.files)))
      >> (wrap "failed to route traffic: "
            (on_site (on_traffic (Traffic.deploy x.files x.request x.traffic_rounds state.tag tag)))
          >> register (traffic_step x d state))

  -- one of the two calls that bring the old containers down
  remove_old : String → List String → Io (Progress W) (Unit {0})
  unfolding on_site bring_down join
  remove_old override_path containers =
      either (on_site (bring_down d override_path containers)) (λ _. pure tt)
        (λ e. fail (
          "failed to bring down old containers, environment may be inconsistent: "
          <> (e <> (", [" <> (join containers " " <> "]")))))

  -- both of them; the loop dereferences the compose section of the old state
  stop_old : String → String → Option (ComposeState Volume Network) → Io (Progress W) (Unit {0})
  unfolding remove_old old_containers values
  stop_old tag override_path none = crash nil_dereference
  stop_old tag override_path (some c) =
      let containers = old_containers tag (values c.services) in
      remove_old override_path containers >> remove_old override_path containers

  deploy_with : String → DeploymentState Volume Network → Io (Progress W) (Deployed Volume Network)
  unfolding new_compose_override send_files start_containers route_traffic stop_old
  deploy_with tag state =
      let overrides = new_compose_override d.compose.services tag in
      send_files overrides >>= λ override_path.
      start_containers tag overrides override_path
      >> (route_traffic tag state
          >> (stop_old tag override_path state.compose
              >> pure (record {
                tag = tag;
                overrides = overrides;
                override_path = override_path;
                old_state = state;
              })))

  -- all that `DeployProject` does before it updates the state
  unfoldable pub deploy_containers : Io (Progress W) (Deployed Volume Network)
  unfolding announce at_world deploy_with
  deploy_containers = at_world announce >>= λ (tag, state). deploy_with tag state

  -- the last two calls, on the state manager
  unfoldable pub update_state :
      Deployed Volume Network → Site W → Io (StateManager Volume Network W) (Unit {0})
  unfolding Manager.update Manager.save get_dynamic_configs
  update_state done s =
      wrap "failed to create new state: " (
        Manager.update d.remote_executor.exec x.codec x.paths d.remote_work_dir done.overrides
          (get_dynamic_configs s.traffic.dynamic_configs) done.tag)
      >> wrap "failed to save new state, this environment cannot be a rollback target: "
          (Manager.save d.remote_executor.exec x.codec x.paths d.remote_work_dir)

  -- the body of `DeployProject`, with the steps that are registered where it ends
  pub finish :
      Result (Deployed Volume Network)
      → Progress W
      → DeploymentState Volume Network
      → Result (Unit {0}) × List (RollbackStep (Site W)) × Outcome Volume Network W
  unfolding update_state
  finish (ok done) p state =
      let (r, m) =
        update_state done p.site (record { current_state = state; world = p.site.traffic.world }) in
      (
        r,
        p.steps,
        record {
          current_state = m.current_state;
          site = record (p.site) { traffic = record (p.site.traffic) { world = m.world } };
        },
      )
  finish (err e) p state = (err e, p.steps, record { current_state = state; site = p.site })
  finish (panicked e) p state =
      (panicked e, p.steps, record { current_state = state; site = p.site })

  unfoldable pub deploy_body :
      Outcome Volume Network W
      → Result (Unit {0}) × List (RollbackStep (Site W)) × Outcome Volume Network W
  unfolding deploy_containers finish
  deploy_body o =
      let (r, p) = deploy_containers (record { steps = []; site = o.site }) in
      finish r p o.current_state

  -- the rollback in the deferred function, over the site
  unfoldable pub take_back : List (RollbackStep (Site W)) → Io (Site W) (Unit {0})
  unfolding rollback on_world Manager.load
  take_back steps =
      rollback (on_world (Manager.load d.remote_executor.exec x.codec x.paths d.remote_work_dir))
        x.deep_equal steps

  -- the deferred function, which recovers from a panic with this text
  unfoldable pub recover :
      String → List (RollbackStep (Site W)) → Io (Outcome Volume Network W) (Unit {0})
  unfolding take_back
  recover text steps o =
      let (r, s) =
        either (take_back steps) (λ _. fail ("deployment panic: " <> text))
          (λ e. fail ("deployment panic: " <> (text <> (", rollback also failed: " <> e))))
          o.site in
      (r, record o { site = s })

  pub leave :
      Result (Unit {0})
      → List (RollbackStep (Site W))
      → Outcome Volume Network W
      → Result (Unit {0}) × Outcome Volume Network W
  unfolding recover
  leave (ok _) steps o = (ok tt, o)
  leave (err e) steps o = (err e, o)
  leave (panicked (here text)) steps o = recover text steps o
  leave (panicked (elsewhere text)) steps o = (panicked (elsewhere text), o)

  -- `DeployProject`
  unfoldable pub deploy_project : Io (Outcome Volume Network W) (Unit {0})
  unfolding deploy_body leave
  deploy_project o = let (r, steps, o') = deploy_body o in leave r steps o'

module _ {Volume Network W : Type 0} (x : External Volume Network W) where
  -- what a new deployer starts from: nothing is loaded, and the state manager's state is zero
  abbrev fresh : Deployer W → W → Outcome Volume Network W
  fresh d w = record {
    current_state = zero_state;
    site = record {
      remote_file_path = d.compose.remote_file_path;
      traffic = record { static_config = none; dynamic_configs = []; world = w };
    };
  }

  run_deployer : Deployer W → Io W (Unit {0})
  unfolding deploy_project
  run_deployer d w = let (r, o) = deploy_project x d (fresh d w) in (r, o.site.traffic.world)

  -- the end of the deploy command, uberbase/cmd/uberbase/deploy.go
  unfoldable pub deploy_command :
      Executor W → Executor W → ComposeProject → String → String → Io W (Unit {0})
  unfolding new_deployer run_deployer
  deploy_command local_executor remote_executor compose local_work_dir remote_work_dir =
      wrap "failed to create deployer: "
        (new_deployer local_executor remote_executor compose local_work_dir remote_work_dir)
      >>= run_deployer
