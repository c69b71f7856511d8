-- ===== src/Examples/Commands.antt =====
-- The commands of the program, in small surroundings.
use uberbase.Common.{
  String, ◌<>◌, ◌==◌, ◌≡◌, ◌≢◌, refl, true, if◌then◌else◌, none, some, List, [], ◌∷◌,
}
use uberbase.Common.Int.{pos}
use uberbase.Common.Decimal.{decimal, decimal_int}
use uberbase.Common.Effect.{Result, ok, err}
use uberbase.Utils.{expand_tilde_local}
use uberbase.Ssh.{Network}
use uberbase.Ssh.Key.{Surroundings}
use uberbase.Commands.Machines.{Machines, on_world, unconnected, local_executor, remote_executor}
use uberbase.Commands.Deploy.{DeployFlags, Shell, Plan, prepare, run_deploy}
use uberbase.Commands.Deploy.Laws.{Authenticated, prepare-Authenticated, run_deploy-fails}
use uberbase.Commands.Signals.{
  interrupt, terminate, stopping, Process, notify, receive, shut_down, run, Reach, begin, next,
}
use uberbase.Traefik.{Files}
use uberbase.Deploy.Project.{External}
use uberbase.Core.{Executor}
use uberbase.Deploy.Project.Run.{new_deployer}
use uberbase.Commands.Machines.Laws.{new_deployer-local}
use uberbase.Common.{◌&&◌, ◌||◌}
use uberbase.Ssh.{connect, execute_command}
use uberbase.Core.Remote.{exec_without_retry}
use uberbase.Examples.{api, answering, one_text, slashes, proxy}

-- A key in the variable that the flag names, and none in SSH_PRIVATE_KEY.
abbrev named_key : Surroundings String
named_key = record {
  getenv = λ name. if name == "DEPLOY_KEY" then "key" else "";
  read_file = λ path. ok ("key at " <> path);
  abs = λ path. ok path;
  parse_private_key = λ text. ok text;
}

abbrev shell : Shell String (List String)
shell = record {
  os = named_key;
  glob = λ pattern. ok (pattern ∷ []);
  dir = λ path. ".";
  project_options = λ paths name. ok paths;
  load_project = λ options. ok (api ∷ []);
}

abbrev from_variable : DeployFlags
from_variable = record {
  compose_path = "";
  ssh_user = "root";
  ssh_port = pos 22;
  ssh_key_file = "";
  ssh_key_env = "DEPLOY_KEY";
}

abbrev from_file : DeployFlags
from_file = record from_variable { ssh_key_file = "/root/.ssh/id" }

-- Both variables are set, and the flags name the second.
abbrev both_shell : Shell String (List String)
both_shell = record shell {
  os = record named_key {
    getenv = λ name. if name == "DEPLOY_KEY" || name == "SSH_PRIVATE_KEY" then "key" else "";
  };
}

abbrev planned_from_variable : Plan String
planned_from_variable = record {
  endpoint = record { addr = "prod:22"; user = "root"; auth = some "key" };
  project = record {
    local_file_path = "docker-compose.yml";
    remote_file_path = "";
    services = api ∷ [];
  };
  local_work_dir = ".";
}

abbrev planned : Plan String
planned = record {
  endpoint = record { addr = "prod:22"; user = "root"; auth = some "key at /root/.ssh/id" };
  project = record {
    local_file_path = "docker-compose.yml";
    remote_file_path = "";
    services = api ∷ [];
  };
  local_work_dir = ".";
}

prepare-Authenticated_example :
    (host : String) × (rest : List String) × ("prod" ∷ [] ≡ host ∷ rest)
    × ("prod:22" ≡ host <> (":" <> decimal_int (pos 22)))
    × Authenticated shell from_file planned
unfolding prepare expand_tilde_local decimal
prepare-Authenticated_example = prepare-Authenticated shell from_file ("prod" ∷ []) refl

-- Every command on either machine prints the commit.
abbrev printing : Network (List String) (Unit {0}) (Unit {0})
printing = record {
  dial = λ addr user seen. (ok tt, seen);
  new_session = λ client seen. (ok tt, seen);
  run = λ session cmd seen. (ok "abc", cmd ∷ seen);
  copy_file = λ client local_path remote_path seen. (ok tt, remote_path ∷ seen);
}

abbrev files : Files (Machines (List String) (Unit {0}))
files = record {
  read_dir = λ path. on_world (proxy.read_dir path);
  read_file = λ path. on_world (proxy.read_file path);
  write_file = λ path text. on_world (proxy.write_file path text);
  remove = λ path. on_world (proxy.remove path);
  join_path = proxy.join_path;
  decode_static = proxy.decode_static;
  encode_static = proxy.encode_static;
  decode_dynamic = proxy.decode_dynamic;
  encode_dynamic = proxy.encode_dynamic;
}

abbrev libraries : External (Unit {0}) (Unit {0}) (Machines (List String) (Unit {0}))
libraries = record {
  codec = one_text;
  encode_override = λ overrides. ok "override";
  decode_inspect = λ text. err "not JSON";
  paths = slashes;
  request = λ method url headers machines. (ok (pos 200), machines);
  files = files;
  deep_equal = λ s t. true;
  container_rounds = 10;
  traffic_rounds = 10;
  rollback_rounds = 30;
}

run_deploy-fails_example :
    (run_deploy (λ auth. printing) (answering "abc") libraries shell ("prod" ∷ []) from_file []).0
    ≢ ok tt
run_deploy-fails_example =
    run_deploy-fails (λ auth. printing) (answering "abc") libraries shell ("prod" ∷ []) from_file []

-- Two signals, of which the second arrives while the script runs.
abbrev interrupted : Process
interrupted = record {
  quit = some terminate;
  shutting_down = true;
  handler = stopping;
  stops = 1;
  status = none;
}

abbrev interrupted-Reach : Reach interrupted
interrupted-Reach =
    next
      (next
        (next (next (next begin (notify interrupt refl refl)) (receive interrupt refl refl refl))
          (shut_down refl refl refl))
        (run refl refl))
      (notify terminate refl refl)

-- A machine on which every tool is found.
abbrev found : String → Result String
found cmd = ok "/usr/bin/tool"

abbrev remote : Executor (Machines (List String) (Unit {0}))
remote = remote_executor printing "prod:22" "root"

new_deployer-local_example : (true ≡ true) × (((true && true) || (true && (true || true))) ≡ true)
unfolding new_deployer local_executor remote_executor connect exec_without_retry execute_command
new_deployer-local_example =
    new_deployer-local found (λ cmd. refl) remote
      (record {
        local_file_path = "docker-compose.yml";
        remote_file_path = "";
        services = api ∷ [];
      })
      "." "/root/uberbase-deploy" (unconnected []) refl
