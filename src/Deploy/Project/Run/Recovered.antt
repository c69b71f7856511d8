-- ===== src/Deploy/Project/Run/Recovered.antt =====
-- What is left of a deployment whose last step panics.
use uberbase.Common.{◌<>◌, map, String}
use uberbase.Common.Effect.{Result, ok, err, panicked, Io}
use uberbase.State.{DeploymentState}
use uberbase.State.Manager.{StateManager}
use uberbase.Containers.Override.{Overrides}
use uberbase.Deploy.Project.{External, Deployer, Site, Outcome}
use uberbase.Common.Text.{join}
use uberbase.State.Manager

module _ {Volume Network W : Type 0} (x : External Volume Network W) (d : Deployer W) where
  -- A command of the remote host, at a site: what it prints is dropped, and its error gets a text.
  abbrev pub ran_at : Io W String → (String → String) → Site W → Result (Unit {0}) × Site W
  ran_at command context s =
      let (r, w) = command s.traffic.world in
      (
        elim r [ ok text ↦ ok tt | err e ↦ err (context e) | panicked e ↦ panicked e ],
        record s { traffic = record (s.traffic) { world = w } },
      )

  -- The override file is removed from the remote host.
  abbrev pub override_removed : String → Site W → Result (Unit {0}) × Site W
  override_removed path s =
      ran_at (d.remote_executor.exec ("rm -f " <> path))
        (λ e. "failed to remove override file: " <> e) s

  -- The containers of these services are brought down, with the project's file and the override.
  abbrev pub containers_down : Overrides → String → Site W → Result (Unit {0}) × Site W
  containers_down overrides path s =
      ran_at
        (d.remote_containers.exec_compose (
          ("-f " <> (s.remote_file_path <> (" -f " <> path)))
          <> (" down --remove-orphans " <> join (map (λ kv. kv.1.name) overrides) " ")))
        (λ e. "failed to bring down new containers: " <> ("failed to remove: " <> e)) s

  -- What a panic with this text leaves, by what its rollback has come to.
  abbrev pub recovered :
      String
      → DeploymentState Volume Network
      → Result (Unit {0}) × Site W
      → Result (Unit {0}) × Outcome Volume Network W
  recovered text state (r, s) = (
    elim r [
      | ok u ↦ err ("deployment panic: " <> text)
      | err e ↦ err ("deployment panic: " <> (text <> (", rollback also failed: " <> e)))
      | panicked e ↦ panicked e
    ],
    record { current_state = state; site = s },
  )
