-- ===== src/Deploy/Project.antt =====
-- uberbase/pkg/deploy/deployer.go: one deployment of a project.
pub mod Steps
pub mod Adding
pub mod Run
use uberbase.Common.{
  ℕ, String, ◌<>◌, ◌==◌, not, Bool, true, false, Option, none, some, List, [], ◌∷◌, map,
  if◌then◌else◌,
}
use uberbase.Common.Int.{ℤ}
use uberbase.Common.Text.{join}
use uberbase.Common.Dict.{Dict, values}
use uberbase.Common.Effect.{
  Result, ok, err, panicked, Io, pure, fail, crash, wrap, resume, either, ◌>>=◌, ◌>>◌,
}
use uberbase.Core.{Executor}
use uberbase.Containers.{Service, ComposeProject, ContainerExecutor}
use uberbase.Containers.Inspect.{ContainerInspectInfo, inspect}
use uberbase.Containers.Image
use uberbase.Containers.Runtime.{new_container_manager, container_executor}
use uberbase.Containers.Manager
use uberbase.Containers.Override
use uberbase.Containers.Override.{ComposeServiceOverride, Overrides, new_compose_override}
use uberbase.Traefik.{Files}
use uberbase.Traefik.Dynamic.{TraefikDynamicConfiguration}
use uberbase.State.{ComposeServiceState, ComposeState, TraefikState, DeploymentState, zero_state}
use uberbase.State.Manager.{Codec, Paths}
use uberbase.Health.{wait_for_containers}
use uberbase.LoadBalancer.Traffic.{TrafficManager}
use uberbase.Git.{GitManager}
use uberbase.Deploy.Rollback.{RollbackStep, add_rollback_step}

-- What a deployment takes from the libraries: YAML and JSON at the types of the program, paths,
-- requests over HTTP, the files of Traefik, and reflect.DeepEqual. The three numbers say how many
-- rounds of health checks end before each of the timers.
pub record External (Volume Network W : Type 0) : Type 0 where
  pub codec : Codec Volume Network
  pub encode_override : Overrides → Result String
  pub decode_inspect : String → Result ContainerInspectInfo
  pub paths : Paths
  pub request : String → String → Dict String → Io W ℤ
  pub files : Files W
  pub deep_equal : Option TraefikState → Option TraefikState → Bool
  pub container_rounds : ℕ
  pub traffic_rounds : ℕ
  pub rollback_rounds : ℕ

-- The fields of `Deployer` that stay as they are. What changes is below.
pub record Deployer (W : Type 0) : Type 0 where
  pub compose : ComposeProject
  pub git_manager : GitManager
  pub local_containers : ContainerExecutor W
  pub remote_containers : ContainerExecutor W
  pub local_executor : Executor W
  pub remote_executor : Executor W
  pub local_work_dir : String
  pub remote_work_dir : String

-- What the steps of a rollback act on: the path that the compose project has on the remote host,
-- and the traffic manager beside the world.
pub record Site (W : Type 0) : Type 0 where
  pub remote_file_path : String
  pub traffic : TrafficManager W

-- A deployment under way
pub record Progress (W : Type 0) : Type 0 where
  pub steps : List (RollbackStep (Site W))
  pub site : Site W

-- What is left of it: the state that the state manager holds, and the site.
pub record Outcome (Volume Network W : Type 0) : Type 0 where
  pub current_state : DeploymentState Volume Network
  pub site : Site W

module _ {W A : Type 0} where
  unfoldable pub on_traffic : Io (TrafficManager W) A → Io (Site W) A
  on_traffic m s = let (r, t) = m s.traffic in (r, record s { traffic = t })

  unfoldable pub on_world : Io W A → Io (Site W) A
  on_world m s =
      let (r, w) = m s.traffic.world in (r, record s { traffic = record (s.traffic) { world = w } })

  unfoldable pub on_site : Io (Site W) A → Io (Progress W) A
  on_site m p = let (r, s) = m p.site in (r, record p { site = s })

  unfoldable pub at_world : Io W A → Io (Progress W) A
  unfolding on_site on_world
  at_world m = on_site (on_world m)

unfoldable pub register : {W : Type 0} → RollbackStep (Site W) → Io (Progress W) (Unit {0})
unfolding add_rollback_step
register step p = (ok tt, record p { steps = add_rollback_step step p.steps })

-- the names of the override's services
unfoldable pub names : Overrides → List String
unfolding values
names overrides = map (λ o. o.name) (values overrides)

-- the containers of the old state that the deployment has not made
unfoldable pub old_containers : String → List ComposeServiceState → List String
old_containers tag [] = []
old_containers tag (service ∷ services) =
    let rest = old_containers tag services in
    if service.container_name == service.service_name <> ("-" <> tag)
    then rest
    else service.container_name ∷ rest

module _ {W : Type 0} (d : Deployer W) where
  -- the project as the container managers see it
  abbrev project_at : Site W → ComposeProject
  project_at s = record (d.compose) { remote_file_path = s.remote_file_path }

  -- `Up` and `Down` of the remote manager
  unfoldable pub bring_up : String → Io (Site W) String
  unfolding Manager.up on_world
  bring_up override_path s =
      on_world (Manager.up d.remote_containers (project_at s) override_path) s

  unfoldable pub bring_down : String → List String → Io (Site W) String
  unfolding Manager.down on_world
  bring_down override_path containers s =
      on_world (Manager.down d.remote_containers (project_at s) override_path containers) s
