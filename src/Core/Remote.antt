-- ===== src/Core/Remote.antt =====
-- uberbase/pkg/core/remote.go: commands on the remote host over SSH, with retries. The mutex, which
-- keeps the calls of one executor apart, and the pause between two attempts are not modelled.
pub mod Laws
use uberbase.Common.{
  ℕ, zero, suc, ◌<◌, ltb, String, ◌<>◌, ◌&&◌, ◌||◌, not, Bool, true, false, Option, none, some,
  if◌then◌else◌,
}
use uberbase.Common.Text.{contains}
use uberbase.Common.Effect.{
  Result, ok, err, panicked, Io, pure, fail, wrap, succeeds, either, ◌>>=◌, ◌>>◌,
}
use uberbase.Ssh
use uberbase.Ssh.{Network, SshSession, connect, execute_command}
use uberbase.Core.Installer.{
  Host, has_git, has_docker, has_podman, has_podman_compose, install_git, install_container_runtime,
}

-- `isTransportError`, on the error's text
unfoldable pub is_transport_error : String → Bool
is_transport_error e =
    contains e "connection refused"
    || contains e "no route to host"
    || contains e "connection reset by peer"
    || contains e "broken pipe"
    || contains e "i/o timeout"
    || contains e "transport"
    || contains e "connection closed"

-- the test of the loop in `Exec`, but for the attempts that are left
unfoldable pub is_retryable : String → Bool
unfolding is_transport_error
is_retryable e = contains e "could not get lock" || is_transport_error e

-- `NewRemoteExecutor` sets `maxRetries` to 3.
abbrev pub default_max_retries : ℕ
default_max_retries = 3

module _ {W Client Session : Type 0} (net : Network W Client Session) (addr user : String) where
  -- `execWithoutRetry`
  unfoldable pub exec_without_retry : String → Io (SshSession W Client) String
  exec_without_retry cmd = either (execute_command net addr user cmd) pure λ e.
      if is_transport_error e
      then either (connect net addr user) (λ _. execute_command net addr user cmd) (λ _. fail e)
      else fail e

  -- The loop of `Exec` over the attempts that are left; the last one does not retry.
  unfoldable pub attempts : ℕ → String → Io (SshSession W Client) String
  attempts zero cmd = pure ""
  attempts (suc left) cmd = either (exec_without_retry cmd) pure λ e.
      if is_retryable e && ltb 0 left
      then attempts left cmd
      else fail ("failed to execute " <> (cmd <> (": " <> e)))

  -- `Exec`
  unfoldable pub exec : ℕ → String → Io (SshSession W Client) String
  unfolding attempts
  exec max_retries cmd c =
      (if c.closed
          then (wrap "failed to connect to remote server: " (connect net addr user)
              >> attempts max_retries cmd)
          else attempts max_retries cmd)
        c

  -- `Test`
  unfoldable pub test : Io (SshSession W Client) Bool
  test = succeeds (connect net addr user)

  -- `SendFile`
  unfoldable pub send_file : String → String → Io (SshSession W Client) (Unit {0})
  send_file local_path remote_path =
      let transfer = Ssh.transfer_file net addr user local_path remote_path in
      wrap ("failed to transfer file from " <> (local_path <> (" to " <> (remote_path <> ": ")))) (
        either transfer pure λ e.
          if is_transport_error e
          then either (connect net addr user) (λ _. transfer) (λ _. fail e)
          else fail e)

-- `Verify`, over the executor's own `Exec`
unfoldable pub verify : {W : Type 0} → (String → Io W String) → Io (Host W) (Unit {0})
unfolding has_git has_docker has_podman has_podman_compose install_git install_container_runtime
verify run = do
  git ← has_git run
  if git then pure tt else wrap "failed to install git: " (install_git run)
  docker ← has_docker run
  if docker then pure tt else do
    podman ← has_podman run
    if not podman
        then wrap "failed to install container runtime: " (install_container_runtime run)
        else do
          compose ← has_podman_compose run
          if compose
              then pure tt
              else wrap "failed to install podman compose: " (install_container_runtime run)
