-- ===== src/Examples/Deployment.antt =====
-- Whole deployments, and what becomes of them.
use uberbase.Common.{
  String, ◌≡◌, refl, true, false, ◌==◌, none, some, List, [], ◌∷◌, ◌++◌, if◌then◌else◌,
}
use uberbase.Common.Int.{pos}
use uberbase.Common.Dict.{lookup}
use uberbase.Common.Effect.{ok, err, Io}
use uberbase.Core.{Executor}
use uberbase.Containers.{ContainerExecutor, ComposeProject}
use uberbase.Containers.Override.{new_compose_override}
use uberbase.State.Manager
use uberbase.State.{DeploymentState, zero_state}
use uberbase.State.Equality.{equal}
use uberbase.Deploy.Rollback.{RollbackStep, run_reversed, rollback}
use uberbase.Deploy.Rollback.Laws.{AllTakenBack, initial_of, rollback-AllTakenBack}
use uberbase.Deploy.Project.{External, Deployer, Site, Progress, Outcome}
use uberbase.Deploy.Project.Steps.{traffic_step}
use uberbase.Deploy.Project.Run.{Deployed, deploy_containers}
use uberbase.Deploy.Project.Run.Laws.{traffic_step-rollback}
use uberbase.Deploy.Project.Adding.{step_names}
use uberbase.Deploy.Project.Run.Registered.{deploy_containers-names}
use uberbase.Examples.{answering, api, db, old, one_text, slashes, proxy}

-- Every command prints the commit.
abbrev host : Executor (List String)
host = record {
  exec = answering "abc";
  test = λ seen. (ok true, seen);
  verify = λ seen. (ok tt, seen);
  send_file = λ local_path remote_path seen. (ok tt, remote_path ∷ seen);
}

abbrev runtime : ContainerExecutor (List String)
runtime = record { exec = answering ""; exec_compose = answering "" }

abbrev libraries : External (Unit {0}) (Unit {0}) (List String)
libraries = record {
  codec = one_text;
  encode_override = λ overrides. ok "override";
  decode_inspect = λ text. ok (record {
    id = "1";
    state = record {
      status = "running";
      running = true;
      paused = false;
      restarting = false;
      oom_killed = false;
      dead = false;
      started_at = "";
      finished_at = "";
      pid = pos 1;
      exit_code = pos 0;
      error = "";
    };
  });
  paths = slashes;
  request = λ method url headers seen. (ok (pos 200), seen);
  files = proxy;
  deep_equal = λ s t. true;
  container_rounds = 10;
  traffic_rounds = 10;
  rollback_rounds = 30;
}

abbrev project : ComposeProject
project = record {
  local_file_path = "docker-compose.yml";
  remote_file_path = "";
  services = db ∷ api ∷ [];
}

abbrev deployer : Deployer (List String)
deployer = record {
  compose = project;
  git_manager = record {
    local_work_dir = ".";
    remote_work_dir = "/app";
    remote = "git";
    sha = "abc";
  };
  local_containers = runtime;
  remote_containers = runtime;
  local_executor = host;
  remote_executor = host;
  local_work_dir = ".";
  remote_work_dir = "/app";
}

abbrev before : Site (List String)
before = record {
  remote_file_path = "";
  traffic = record { static_config = none; dynamic_configs = []; world = [] };
}

-- what a new deployer starts from
abbrev start : Outcome (Unit {0}) (Unit {0}) (List String)
start = record { current_state = zero_state; site = before }

abbrev deployed : Deployed (Unit {0}) (Unit {0})
deployed = record {
  tag = "abc";
  overrides = new_compose_override (db ∷ api ∷ []) "abc";
  override_path = "/app/docker-compose.override.yml";
  old_state = old;
}

abbrev reached : Progress (List String)
reached = (deploy_containers libraries deployer (record { steps = []; site = before })).1

traffic_step-rollback_example : (traffic_step libraries deployer old).rollback before ≡ (
  if "old" == "" then err "failed to rollback traffic: container tag cannot be empty" else ok tt,
  before,
)
traffic_step-rollback_example = traffic_step-rollback libraries deployer old before

-- a step that notes its name, with nothing to verify, and one that looks for what it has noted
abbrev noting_step : String → RollbackStep (List String)
noting_step name = record { name = name; rollback = λ seen. (ok tt, name ∷ seen); verify = none }

abbrev verified_step : String → RollbackStep (List String)
verified_step name = record (noting_step name) { verify = some (λ seen. (ok tt, "verify" ∷ seen)) }

abbrev load_old : Io (List String) (DeploymentState (Unit {0}) (Unit {0}))
load_old seen = (ok old, "load" ∷ seen)

rollback-AllTakenBack_example :
    AllTakenBack (verified_step "two" ∷ noting_step "one" ∷ []) ("load" ∷ [])
    × (final : DeploymentState (Unit {0}) (Unit {0})) × ((load_old
          (run_reversed (noting_step "one" ∷ verified_step "two" ∷ []) ("load" ∷ [])).1).0
        ≡ ok final)
    × (equal (λ s t. true) (initial_of (load_old []).0) final ≡ ok true)
unfolding rollback equal lookup
rollback-AllTakenBack_example =
    rollback-AllTakenBack load_old (λ s t. true) (noting_step "one" ∷ verified_step "two" ∷ []) []
      refl

deploy_containers-names_example :
    (rest : List String) × ("rollback-override" ∷ "rollback-up" ∷ "traffic-rollback" ∷ []
      ≡ step_names reached.steps ++ rest)
    × ((done : Deployed (Unit {0}) (Unit {0}))
        → (deploy_containers libraries deployer (record { steps = []; site = before })).0 ≡ ok done
        → rest ≡ [])
deploy_containers-names_example = deploy_containers-names libraries deployer before
