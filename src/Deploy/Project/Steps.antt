-- ===== src/Deploy/Project/Steps.antt =====
-- The closures that `DeployProject` registers with its rollback manager.
use uberbase.Common.{String, ◌<>◌, ◌==◌, Option, none, some, List, [], ◌∷◌, if◌then◌else◌}
use uberbase.Common.Dict.{Dict}
use uberbase.Common.Effect.{nil_dereference, Io, pure, fail, crash, wrap, either, ◌>>=◌, ◌>>◌}
use uberbase.Containers.Inspect.{inspect}
use uberbase.Containers.Override.{Overrides}
use uberbase.Traefik.Dynamic.{TraefikDynamicConfiguration}
use uberbase.State.{TraefikState, DeploymentState}
use uberbase.LoadBalancer.Traffic
use uberbase.LoadBalancer.Traffic.{TrafficManager, wait_on}
use uberbase.Deploy.Rollback.{RollbackStep}
use uberbase.Deploy.Project.{External, Deployer, Site, on_traffic, on_world, names, bring_down}

module _ {Volume Network W : Type 0} (x : External Volume Network W) (d : Deployer W) where
  -- "rollback-override"
  unfoldable pub override_step : String → RollbackStep (Site W)
  unfolding on_world
  override_step override_path = record {
    name = "rollback-override";
    rollback =
        wrap "failed to remove override file: "
          (on_world (d.remote_executor.exec ("rm -f " <> override_path)))
        >> pure tt;
    verify = some (
        on_world (
          either (d.remote_executor.exec ("test -f " <> override_path))
            (λ _. fail "override file still exists after rollback") (λ _. pure tt)));
  }

  -- the loop that looks for containers that still run
  verify_down : List String → Io W (Unit {0})
  unfolding inspect
  verify_down [] = pure tt
  verify_down (name ∷ rest) =
      either (inspect d.remote_containers x.decode_inspect name)
        (λ info.
          if info.state.status == "running"
          then fail ("container " <> (name <> " still running after rollback"))
          else verify_down rest)
        (λ _. verify_down rest)

  -- "rollback-up"
  unfoldable pub up_step : Overrides → String → RollbackStep (Site W)
  unfolding names bring_down verify_down on_world
  up_step overrides override_path = record {
    name = "rollback-up";
    rollback =
        wrap "failed to bring down new containers: " (bring_down d override_path (names overrides))
        >> pure tt;
    verify = some (on_world (verify_down (names overrides)));
  }

  -- the loop over the old configurations returns in its first round
  verify_first : Dict TraefikDynamicConfiguration → Io W (Unit {0})
  verify_first [] = pure tt
  verify_first ((file, config) ∷ configs) =
      wait_on x.files x.request x.rollback_rounds config.http >>= λ healthy.
      if healthy then pure tt else fail "timeout waiting for health checks after traffic rollback"

  verify_configs : Option TraefikState → Io W (Unit {0})
  unfolding verify_first
  verify_configs none = crash nil_dereference
  verify_configs (some t) = verify_first t.configs

  -- "traffic-rollback"
  unfoldable pub traffic_step : DeploymentState Volume Network → RollbackStep (Site W)
  unfolding Traffic.deploy verify_configs on_traffic on_world
  traffic_step state = record {
    name = "traffic-rollback";
    rollback =
        wrap "failed to rollback traffic: "
          (on_traffic (Traffic.deploy x.files x.request x.traffic_rounds state.tag state.tag));
    verify = some (on_world (if state.tag == "" then pure tt else verify_configs state.traefik));
  }
