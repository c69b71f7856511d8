-- ===== src/Commands/Machines/Laws.antt =====
-- What the machine from which one deploys has to have.
use uberbase.Common.{String, ◌≡◌, sym, ap, ◌∙◌, Bool, true, false, ◌&&◌, ◌||◌, if◌then◌else◌, arith}
use uberbase.Common.{not}
use uberbase.Common.Effect.{Result, ok, Io, wrap, fail}
use uberbase.Common.Effect.Laws.{bind-eq-ok, wrap-eq-ok}
use uberbase.Common.Effect.Steady.{steady, works, IsCalm}
use uberbase.Core.{Executor}
use uberbase.Core.Local
use uberbase.Core.Local.Laws.{passes, verify-eq}
use uberbase.Containers.{ComposeProject}
use uberbase.Containers.Runtime.{Runtime, new_container_manager}
use uberbase.Containers.Runtime.Laws.{manages, new_container_manager_iff}
use uberbase.Deploy.Project.{Deployer}
use uberbase.Deploy.Project.Run.{new_deployer}
use uberbase.Commands.Machines.{Machines, on_world, on_local, local_executor}

if_connected :
    {V A : Type 0} (connected : Bool) (text : String) (m : Io V A) (v : V) {a : A}
    → ((if not connected then fail text else m) v).0 ≡ ok a
    → (m v).0 ≡ ok a
if_connected true text m v h = h
if_connected false text m v h = cc h

-- A new deployer means that the local check has passed and that a local manager has been made.
new_deployer-parts :
    {V : Type 0} (l r : Executor V) (compose : ComposeProject)
    (local_work_dir remote_work_dir : String) (s : V) {d : Deployer V}
    → (new_deployer l r compose local_work_dir remote_work_dir s).0 ≡ ok d
    → ((l.verify s).0 ≡ ok tt)
      × ((v : V) × (runtime : Runtime) × ((new_container_manager l.exec v).0 ≡ ok runtime))
unfolding new_deployer
new_deployer-parts l r compose local_work_dir remote_work_dir s h =
    let (u, verified, h1) = bind-eq-ok l.verify _ s h in
    let (connected, tested, h2) = bind-eq-ok r.test _ (l.verify s).1 h1 in
    let h3 = if_connected connected _ _ (r.test (l.verify s).1).1 h2 in
    let (u', ready, h4) = bind-eq-ok r.verify _ (r.test (l.verify s).1).1 h3 in
    let v = (r.verify (r.test (l.verify s).1).1).1 in
    let (runtime, made, h5) =
      bind-eq-ok (wrap "failed to create local container manager: " (new_container_manager l.exec))
        _ v h4 in
    (
      verified,
      (
        v,
        runtime,
        wrap-eq-ok "failed to create local container manager: " (new_container_manager l.exec) v
            made,
      ),
    )

module _ {W Client : Type 0} (answer : String → Result String) (calm : IsCalm answer) where
  manager_found :
      (v : Machines W Client) {runtime : Runtime}
      → (new_container_manager (local_executor (steady answer)).exec v).0 ≡ ok runtime
      → ((works (answer "which podman") && works (answer "which podman-compose"))
          || (works (answer "which docker")
              && (works (answer "which docker-compose")
                  || works (answer "docker compose --version"))))
        ≡ true
  unfolding local_executor on_world Local.exec
  manager_found v made = sym (new_container_manager_iff answer calm v).0 ∙ ap manages made

  verified_git :
      (s : Machines W Client)
      → ((local_executor (steady answer)).verify s).0 ≡ ok tt
      → works (answer "git --version") ≡ true
  unfolding local_executor on_local Local.exec
  verified_git s verified = ground (
    arith,
    sym (verify-eq answer (record { platform = s.local_platform; world = s.session.world }) calm)
        ∙ ap passes verified,
  )

  -- Where a deployer is made on a machine with steady answers, none of which is a panic, git works
  -- there, and podman is found with podman-compose, or docker with one of its two compose commands.
  pub new_deployer-local :
      (remote : Executor (Machines W Client)) (compose : ComposeProject)
      (local_work_dir remote_work_dir : String) (s : Machines W Client)
      {d : Deployer (Machines W Client)}
      → (new_deployer
          (local_executor (steady answer))
          remote
          compose
          local_work_dir
          remote_work_dir
          s).0
        ≡ ok d
      → (works (answer "git --version") ≡ true)
        × (((works (answer "which podman") && works (answer "which podman-compose"))
              || (works (answer "which docker")
                  && (works (answer "which docker-compose")
                      || works (answer "docker compose --version"))))
            ≡ true)
  new_deployer-local remote compose local_work_dir remote_work_dir s h =
      let (verified, (v, runtime, made)) =
        new_deployer-parts (local_executor (steady answer)) remote compose local_work_dir
          remote_work_dir s h in
      (verified_git s verified, manager_found v made)
