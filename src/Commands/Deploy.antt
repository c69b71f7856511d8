-- ===== src/Commands/Deploy.antt =====
-- uberbase/cmd/uberbase/deploy.go: the deploy command.
pub mod Laws
use uberbase.Common.{
  String, ◌<>◌, ◌==◌, ◌&&◌, Bool, true, false, List, [], ◌∷◌, if◌then◌else◌, Option,
}
use uberbase.Common.Int.{ℤ}
use uberbase.Common.Effect.{Result, ok, err, panicked, Io, add_context}
use uberbase.Common.Results.{◌>>=◌, ◌>>◌}
use uberbase.Ssh.{Network}
use uberbase.Ssh.Key
use uberbase.Ssh.Key.{SshKey, Surroundings, environment, file, new_ssh_key}
use uberbase.Containers.{ComposeProject, Service, new_compose_project}
use uberbase.Deploy.Project.{External}
use uberbase.Deploy.Project.Run.{deploy_command}
use uberbase.Commands.Machines.{
  Machines, SshConfig, Endpoint, new_session, local_executor, remote_executor, unconnected,
}

-- The flags that the command reads. The flags for a registry are declared and never read.
pub record DeployFlags : Type 0 where
  pub compose_path : String
  pub ssh_user : String
  pub ssh_port : ℤ
  pub ssh_key_file : String
  pub ssh_key_env : String

-- What the command finds around it: the surroundings of the key, `filepath.Glob` and
-- `filepath.Dir`, and compose-go.
pub record Shell (Auth Options : Type 0) : Type 0 where
  pub os : Surroundings Auth
  pub glob : String → Result (List String)
  pub dir : String → String
  pub project_options : List String → String → Result Options
  pub load_project : Options → Result (List Service)

-- what there is once all is read that the deployment needs
pub record Plan (Auth : Type 0) : Type 0 where
  pub endpoint : Endpoint Auth
  pub project : ComposeProject
  pub local_work_dir : String

abbrev pub remote_work_dir : String
remote_work_dir = "/root/uberbase-deploy"

abbrev first_host : List String → Result String
first_host [] = err "no hosts specified"
first_host (host ∷ args) = ok host

abbrev first_path : List String → Result String
first_path [] = err "no docker-compose.yml file found in working directory"
first_path (path ∷ paths) = ok path

module _ {Auth Options : Type 0} (shell : Shell Auth Options) where
  -- the source of the key and `sshKeyData`; the variable that is read is not the one of the flag
  unfoldable pub check_key : DeployFlags → Result (Unit {0})
  check_key flags =
      let key_data = if flags.ssh_key_file == "" then shell.os.getenv "SSH_PRIVATE_KEY" else "" in
      if key_data == "" && flags.ssh_key_file == ""
      then err
          "either SSH key file (-i) or SSH key environment variable (SSH_PRIVATE_KEY) must be provided"
      else ok tt

  -- `NewSSHKey` and the first `Load`; the key that has been loaded
  unfoldable pub load_key : DeployFlags → Result (SshKey Auth)
  unfolding new_ssh_key Key.load
  load_key flags =
      let (r, key) = Key.load shell.os (
        new_ssh_key (if flags.ssh_key_file == "" then environment else file) flags.ssh_key_env
          flags.ssh_key_file) in
      add_context "failed to load SSH key: " r >>= λ _. ok key

  -- the path of the flag, or the file in the working directory
  unfoldable pub find_compose : DeployFlags → Result String
  find_compose flags =
      if flags.compose_path == ""
      then add_context "failed to find docker-compose.yml: " (shell.glob "docker-compose.yml")
        >>= first_path
      else ok flags.compose_path

  -- all that comes before `NewDeployer`; none of it acts on a host
  unfoldable pub prepare : List String → DeployFlags → Result (Plan Auth)
  unfolding check_key load_key find_compose new_compose_project new_session
  prepare args flags = first_host args >>= λ host.
      check_key flags
      >> (load_key flags >>= λ key. find_compose flags >>= λ path.
          add_context "failed to load docker-compose.yml: "
            (new_compose_project shell.project_options shell.load_project path "uberbase-deploy")
          >>= λ project.
              add_context "failed to create remote executor: " (
                new_session shell.os
                  (record { host = host; user = flags.ssh_user; port = flags.ssh_port; key = key }))
              >>= λ endpoint. ok (record {
                endpoint = endpoint;
                project = project;
                local_work_dir = shell.dir path;
              }))

module _ {Volume Networks W Client Session Auth : Type 0}
    (network : Option Auth → Network W Client Session) (sh_c : String → Io W String)
    (x : External Volume Networks (Machines W Client)) where
  unfoldable pub run_plan : Plan Auth → Io (Machines W Client) (Unit {0})
  unfolding deploy_command local_executor remote_executor
  run_plan plan =
      deploy_command x (local_executor sh_c)
        (remote_executor (network plan.endpoint.auth) plan.endpoint.addr plan.endpoint.user)
        plan.project plan.local_work_dir remote_work_dir

  -- the executors are new, and nothing is connected yet
  run_prepared : Result (Plan Auth) → Io W (Unit {0})
  unfolding run_plan
  run_prepared (ok plan) w = let (r, s) = run_plan plan (unconnected w) in (r, s.session.world)
  run_prepared (err e) w = (err e, w)
  run_prepared (panicked e) w = (panicked e, w)

  -- `RunE` of `getDeployCmd`
  unfoldable pub run_deploy :
      {Options : Type 0} → Shell Auth Options → List String → DeployFlags → Io W (Unit {0})
  unfolding prepare run_prepared
  run_deploy shell args flags = run_prepared (prepare shell args flags)
