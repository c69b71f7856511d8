-- ===== src/Deploy/Project/Run/Registered.antt =====
-- Which steps stand ready for a rollback when a deployment ends, however it ends.
use uberbase.Common.{
  arith, String, ◌≡◌, refl, sym, ap, ◌∙◌, Option, none, some, List, [], ◌∷◌, ◌++◌,
}
use uberbase.Common.Effect.{ok}
use uberbase.State.{ComposeState, DeploymentState}
use uberbase.Containers.Image
use uberbase.Health.{wait_for_containers}
use uberbase.LoadBalancer.Traffic
use uberbase.Containers.Override
use uberbase.Containers.Override.{Overrides, new_compose_override}
use uberbase.Deploy.Project.{External, Deployer, Site, on_traffic, bring_up, on_site}
use uberbase.Deploy.Project.Steps.{override_step, up_step, traffic_step}
use uberbase.Deploy.Project.Run.{
  compose_path, keep_path, remove_old, send_files, start_containers, route_traffic, stop_old,
  deploy_with, announce, Deployed, deploy_containers,
}
use uberbase.Deploy.Project.Adding.{
  step_names, Adding, Adds-none, Adding-on_site, Adding-at_world, Adding-pure, Adding-fail,
  Adding-wrap, Adding-if, Adding-bind, Adding-register,
}

module _ {Volume Network W : Type 0} (x : External Volume Network W) (d : Deployer W) where
  send_files-Adding :
      (overrides : Overrides) → Adding ("rollback-override" ∷ []) (send_files x d overrides)
  unfolding send_files override_step
  send_files-Adding overrides =
      Adding-bind [] _ _ _
        (Adding-wrap [] "failed to send docker-compose.yml to remote server: " _ (
          Adding-at_world
            (d.remote_executor.send_file d.compose.local_file_path (compose_path x d))))
        λ _. Adding-bind [] _ _ _ (Adding-on_site (keep_path x d)) λ _.
          Adding-bind [] _ _ _
            (Adding-wrap [] "failed to write override file: " _ (
              Adding-at_world (
                Override.write_to_file d.remote_executor.exec x.encode_override x.paths.join
                  overrides d.remote_work_dir)))
            λ path.
              Adding-bind _ [] _ _ (Adding-register (override_step x d path)) λ _. Adding-pure path

  start_containers-Adding :
      (tag : String) (overrides : Overrides) (path : String)
      → Adding ("rollback-up" ∷ []) (start_containers x d tag overrides path)
  unfolding start_containers up_step
  start_containers-Adding tag overrides path =
      Adding-bind [] _ _ _
        (Adding-wrap [] "failed to pull new containers: " _
          (Adding-at_world (Image.pull d.remote_containers.exec tag d.compose.services)))
        λ _.
          Adding-bind [] _ _ _
            (Adding-wrap [] "failed to bring up new containers: " _
              (Adding-on_site (bring_up d path)))
            λ _.
              Adding-bind [] _ _ _
                (Adding-at_world (
                  wait_for_containers d.remote_containers x.decode_inspect x.container_rounds
                    overrides))
                λ healthy.
                  Adding-if _ healthy _ _ (Adding-register (up_step x d overrides path))
                    (Adding-fail _ "timed out waiting for new containers to be healthy")

  route_traffic-Adding :
      (tag : String) (state : DeploymentState Volume Network)
      → Adding ("traffic-rollback" ∷ []) (route_traffic x d tag state)
  unfolding route_traffic traffic_step
  route_traffic-Adding tag state =
      Adding-bind [] _ _ _
        (Adding-wrap [] "failed to load traffic manager: " _
          (Adding-on_site (on_traffic (Traffic.load x.files))))
        λ _.
          Adding-bind [] _ _ _
            (Adding-wrap [] "failed to route traffic: " _ (
              Adding-on_site
                (on_traffic (Traffic.deploy x.files x.request x.traffic_rounds state.tag tag))))
            λ _. Adding-register (traffic_step x d state)

  stop_old-Adding :
      (tag path : String) (c : Option (ComposeState Volume Network))
      → Adding [] (stop_old x d tag path c)
  unfolding stop_old remove_old on_site
  stop_old-Adding tag path none p = Adds-none p _ refl
  stop_old-Adding tag path (some c) p = Adds-none p _ (ground arith)

  deploy_with-Adding :
      (tag : String) (state : DeploymentState Volume Network)
      → Adding
          ("rollback-override" ∷ "rollback-up" ∷ "traffic-rollback" ∷ [])
          (deploy_with x d tag state)
  unfolding deploy_with
  deploy_with-Adding tag state =
      let overrides = new_compose_override d.compose.services tag in
      Adding-bind ("rollback-override" ∷ []) _ _ _ (send_files-Adding overrides) λ path.
        Adding-bind ("rollback-up" ∷ []) _ _ _ (start_containers-Adding tag overrides path) λ _.
          Adding-bind ("traffic-rollback" ∷ []) [] _ _ (route_traffic-Adding tag state)
            λ _. Adding-bind [] [] _ _ (stop_old-Adding tag path state.compose) λ _. Adding-pure _

  -- However the work of a deployment ends, the steps that are registered by then are the first ones
  -- of three, in this order: the override file, the new containers and the traffic. If it ends well
  -- they are all three.
  pub deploy_containers-names :
      (s : Site W)
      → let (r, p) = deploy_containers x d (record { steps = []; site = s }) in
        (rest : List String) × ("rollback-override" ∷ "rollback-up" ∷ "traffic-rollback" ∷ []
          ≡ step_names p.steps ++ rest)
        × ((done : Deployed Volume Network) → r ≡ ok done → rest ≡ [])
  unfolding deploy_containers
  deploy_containers-names s =
      let adds =
        Adding-bind [] _ _ _ (Adding-at_world (announce x d))
          (λ found. deploy_with-Adding found.0 found.1) (record { steps = []; site = s }) in
      (adds.rest, adds.in_order ∙ ap (λ l. l ++ adds.rest) (sym adds.registered), adds.whole)
