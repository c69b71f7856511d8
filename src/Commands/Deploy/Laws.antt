-- ===== src/Commands/Deploy/Laws.antt =====
-- What the deploy command needs to begin, and how it ends.
use uberbase.Common.{
  ◌≢◌, String, ◌<>◌, ◌==◌, ◌≡◌, ◌≢◌, sym, ap, ◌∙◌, Bool, Option, some, List, [], ◌∷◌, if◌then◌else◌,
}
use uberbase.Common.Decimal.{decimal_int}
use uberbase.Common.Effect.{Result, ok, err, panicked, Io, add_context}
use uberbase.Common.Effect.Laws.{add_context-eq-ok}
use uberbase.Common.Results.{◌>>=◌, Result-bind-ok, ok_inj}
use mathlib.Core.Path.{subst}
use uberbase.Containers.{new_compose_project}
use uberbase.Ssh.{Network}
use uberbase.Ssh.Key
use uberbase.Ssh.Key.{Surroundings, new_ssh_key, SshKey, environment, file}
use uberbase.Ssh.Key.Laws.{KeyText, load-KeyText, load_cached}
use uberbase.Deploy.Project.{External}
use uberbase.Deploy.Project.Run.Laws.{deploy_command-fails}
use uberbase.Commands.Machines.{
  unconnected, Machines, local_executor, remote_executor, new_session, Endpoint, SshConfig,
}
use uberbase.Commands.Deploy.{
  DeployFlags, Shell, Plan, first_host, check_key, load_key, find_compose, prepare, run_plan,
  run_prepared, run_deploy, remote_work_dir,
}

module _ {Auth Options : Type 0} (shell : Shell Auth Options) (flags : DeployFlags) where
  -- the flags' key comes from the environment where no file is named
  abbrev pub from_env : Bool
  from_env = flags.ssh_key_file == ""

  -- Whatever a session is opened with: the address of the first argument, and a key that is not
  -- missing, made of the text that the flags name.
  abbrev pub Authenticated : Plan Auth → Type 0
  Authenticated plan =
      (auth : Auth) × (text : String) × KeyText shell.os from_env flags.ssh_key_env
        flags.ssh_key_file text
      × (shell.os.parse_private_key text ≡ ok auth)
      × (plan.endpoint.auth ≡ some auth)

  load_key-KeyText :
      {key : SshKey Auth}
      → load_key shell flags ≡ ok key
      → (auth : Auth) × (text : String) × KeyText shell.os from_env flags.ssh_key_env
          flags.ssh_key_file text
        × (shell.os.parse_private_key text ≡ ok auth)
        × (Key.load shell.os key ≡ (ok (some auth), key))
  unfolding load_key
  load_key-KeyText {key} h =
      let (a, loaded, same) = Result-bind-ok _ _ h in
      let first = add_context-eq-ok _ _ loaded in
      let (auth, text, found, parsed, e) =
        load-KeyText shell.os from_env flags.ssh_key_env flags.ssh_key_file first in
      let first_key =
        (Key.load shell.os (
          new_ssh_key (if from_env then environment else file) flags.ssh_key_env
            flags.ssh_key_file)).1 in
      let cached =
        subst (λ o. Key.load shell.os first_key ≡ (ok o, first_key)) e
          (load_cached shell.os shell.os
            (new_ssh_key (if from_env then environment else file) flags.ssh_key_env
              flags.ssh_key_file)
            first) in
      (
        auth,
        text,
        found,
        parsed,
        subst (λ k. Key.load shell.os k ≡ (ok (some auth), k)) (cc same) cached,
      )

  new_session-eq-ok :
      (config : SshConfig Auth) {auth : Auth} {endpoint : Endpoint Auth}
      → Key.load shell.os config.key ≡ (ok (some auth), config.key)
      → new_session shell.os config ≡ ok endpoint
      → (endpoint.addr ≡ config.host <> (":" <> decimal_int config.port))
        × (endpoint.auth ≡ some auth)
  unfolding new_session
  new_session-eq-ok config {auth} cached h =
      let e =
        sym (
          ap
            (λ q. add_context "failed to load SSH key: " q.0 >>= λ a. ok (record {
              addr = config.host <> (":" <> decimal_int config.port);
              user = config.user;
              auth = a;
            }))
            cached)
        ∙ h in
      (cc e, cc e)

  first_host-eq-ok :
      (args : List String) {host : String}
      → first_host args ≡ ok host
      → (rest : List String) × (args ≡ host ∷ rest)
  first_host-eq-ok [] h = cc h
  first_host-eq-ok (x ∷ args) h = (args, cc h)

  -- Where the command begins a deployment, its session has the address that the first argument and
  -- the port give, and a key, which the parser has made of the file that the flags name, or without
  -- one of the variable.
  pub prepare-Authenticated :
      (args : List String) {plan : Plan Auth}
      → prepare shell args flags ≡ ok plan
      → (host : String) × (rest : List String) × (args ≡ host ∷ rest)
        × (plan.endpoint.addr ≡ host <> (":" <> decimal_int flags.ssh_port))
        × Authenticated plan
  unfolding prepare
  prepare-Authenticated args h =
      let (host, is_host, h) = Result-bind-ok (first_host args) _ h in
      let (_, _, h) = Result-bind-ok (check_key shell flags) _ h in
      let (key, loaded, h) = Result-bind-ok (load_key shell flags) _ h in
      let (path, _, h) = Result-bind-ok (find_compose shell flags) _ h in
      let (project, _, h) =
        Result-bind-ok
          (add_context "failed to load docker-compose.yml: "
            (new_compose_project shell.project_options shell.load_project path "uberbase-deploy"))
          _ h in
      let (endpoint, connected, same) =
        Result-bind-ok
          (add_context "failed to create remote executor: " (
            new_session shell.os
              (record { host = host; user = flags.ssh_user; port = flags.ssh_port; key = key })))
          _ h in
      let (rest, is_args) = first_host-eq-ok args is_host in
      let (auth, text, found, parsed, cached) = load_key-KeyText loaded in
      let (addr, is_auth) =
        new_session-eq-ok
          (record { host = host; user = flags.ssh_user; port = flags.ssh_port; key = key }) cached
          (add_context-eq-ok _ _ connected) in
      (
        host,
        rest,
        is_args,
        sym (ap (λ p. p.endpoint.addr) (ok_inj same)) ∙ addr,
        (auth, text, found, parsed, sym (ap (λ p. p.endpoint.auth) (ok_inj same)) ∙ is_auth),
      )

run_prepared-fails :
    {Volume Networks W Client Session Auth : Type 0}
    (network : Option Auth → Network W Client Session) (sh_c : String → Io W String)
    (x : External Volume Networks (Machines W Client)) (plan : Result (Plan Auth)) (w : W)
    → (run_prepared network sh_c x plan w).0 ≢ ok tt
unfolding run_prepared run_plan
run_prepared-fails network sh_c x (ok plan) w =
    deploy_command-fails x (local_executor sh_c)
      (remote_executor (network plan.endpoint.auth) plan.endpoint.addr plan.endpoint.user)
      plan.project plan.local_work_dir remote_work_dir (unconnected w)
run_prepared-fails network sh_c x (err e) w = λ h. cc
run_prepared-fails network sh_c x (panicked e) w = λ h. cc

-- No deploy command succeeds, whatever its arguments, the machines and the libraries.
pub run_deploy-fails :
    {Volume Networks W Client Session Auth Options : Type 0}
    (network : Option Auth → Network W Client Session) (sh_c : String → Io W String)
    (x : External Volume Networks (Machines W Client)) (shell : Shell Auth Options)
    (args : List String) (flags : DeployFlags) (w : W)
    → (run_deploy network sh_c x shell args flags w).0 ≢ ok tt
unfolding run_deploy
run_deploy-fails network sh_c x shell args flags w =
    run_prepared-fails network sh_c x (prepare shell args flags) w
