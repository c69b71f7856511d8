-- ===== src/Core/Remote/Laws.antt =====
-- What `Exec` of the remote executor promises about the command's result and about its attempts.
use uberbase.Common.{
  ◌≤◌, ◌+◌, ◌*◌, Bool, ◌&&◌, ltb, if◌then◌else◌, ℕ, zero, suc, String, ◌≡◌, true, arith,
}
use uberbase.Common.Effect.{ok, Io, pure, fail, wrap}
use uberbase.Common.Effect.Laws.{Yields, Yields-err, Yields-ok, Yields-if, Yields-either}
use uberbase.Ssh.{outside, Network, SshSession, connect, execute_command}
use uberbase.Core.Remote.{is_transport_error, is_retryable, exec_without_retry, attempts, exec}

module _ {W Client Session : Type 0} (net : Network W Client Session) (addr user : String) where
  -- The command ran over some session, in some world, with this output.
  abbrev pub Ran : String → String → Type 0
  Ran cmd output = (session : Session) × (w : W) × ((net.run session cmd w).0 ≡ ok output)

  execute_command-Ran :
      (c : SshSession W Client) (cmd : String)
      → Yields (Ran cmd) (execute_command net addr user cmd c).0
  unfolding execute_command
  execute_command-Ran c cmd =
      Yields-either (Ran cmd) (connect net addr user) _ fail c
        (λ session _.
          Yields-either (Ran cmd) (outside net addr user (net.run session cmd)) pure _ _
            (λ output ran. Yields-ok (Ran cmd) output (session, _, ran)) (λ e o h. cc))
        (Yields-err (Ran cmd))

  exec_without_retry-Ran :
      (c : SshSession W Client) (cmd : String)
      → Yields (Ran cmd) (exec_without_retry net addr user cmd c).0
  unfolding exec_without_retry
  exec_without_retry-Ran c cmd =
      Yields-either (Ran cmd) (execute_command net addr user cmd) pure _ c
        (λ output ran. Yields-ok (Ran cmd) output (execute_command-Ran c cmd output ran))
        (λ e.
          Yields-if (Ran cmd) (is_transport_error e) _ (fail e) _
            (λ _.
              Yields-either (Ran cmd) (connect net addr user) _ _ _
                (λ _ _. execute_command-Ran _ cmd) (λ _. Yields-err (Ran cmd) e))
            (λ _. Yields-err (Ran cmd) e))

  -- Every attempt but the last may be followed by another.
  attempt-Ran :
      (again : Bool) (more : Io (SshSession W Client) String) (cmd text : String)
      (c : SshSession W Client)
      → (again ≡ true → (d : SshSession W Client) → Yields (Ran cmd) (more d).0)
      → Yields (Ran cmd) ((if again then more else fail text) c).0
  attempt-Ran again more cmd text c h =
      Yields-if (Ran cmd) again more (fail text) c (λ e. h e c) (λ _. Yields-err (Ran cmd) text)

  attempts-Ran :
      (left : ℕ) (c : SshSession W Client) (cmd : String)
      → Yields (Ran cmd) (attempts net addr user (suc left) cmd c).0
  unfolding attempts
  attempts-Ran zero c cmd =
      Yields-either (Ran cmd) (exec_without_retry net addr user cmd) pure _ c
        (λ output ran. Yields-ok (Ran cmd) output (exec_without_retry-Ran c cmd output ran))
        (λ e. attempt-Ran (is_retryable e && ltb 0 0) _ cmd _ _ (λ more. ground arith))
  attempts-Ran (suc left) c cmd =
      Yields-either (Ran cmd) (exec_without_retry net addr user cmd) pure _ c
        (λ output ran. Yields-ok (Ran cmd) output (exec_without_retry-Ran c cmd output ran))
        (λ e.
          attempt-Ran (is_retryable e && ltb 0 (suc left)) (attempts net addr user (suc left) cmd)
            cmd _ _ (λ _ d. attempts-Ran left d cmd))

  -- `Exec` with at least one attempt returns without an error only what the command printed when it
  -- ran with success.
  pub exec-Ran :
      (max : ℕ) (c : SshSession W Client) (cmd output : String)
      → (exec net addr user (suc max) cmd c).0 ≡ ok output
      → Ran cmd output
  unfolding exec
  exec-Ran max c cmd =
      Yields-if (Ran cmd) c.closed _ (attempts net addr user (suc max) cmd) c
        (λ _.
          Yields-either (Ran cmd) (wrap _ (connect net addr user)) _ fail c
            (λ _ _. attempts-Ran max _ cmd) (Yields-err (Ran cmd)))
        (λ _. attempts-Ran max c cmd)

-- The number of command runs that the world has seen.
module _ {W Client Session : Type 0} (net : Network W Client Session) (addr user : String)
    (cmd : String) (runs : W → ℕ) (dial_runs : (w : W) → runs (net.dial addr user w).1 ≡ runs w)
    (session_runs : (client : Client) (w : W) → runs (net.new_session client w).1 ≡ runs w)
    (run_runs : (session : Session) (w : W) → runs (net.run session cmd w).1 ≤ runs w + 1) where
  connect_runs : (c : SshSession W Client) → runs (connect net addr user c).1.world ≡ runs c.world
  unfolding connect
  connect_runs c = grind arith

  execute_command_runs :
      (c : SshSession W Client)
      → runs (execute_command net addr user cmd c).1.world ≤ runs c.world + 1
  unfolding execute_command
  execute_command_runs c = grind (arith, connect_runs)

  exec_without_retry_runs :
      (c : SshSession W Client)
      → runs (exec_without_retry net addr user cmd c).1.world ≤ runs c.world + 2
  unfolding exec_without_retry
  exec_without_retry_runs c = grind (arith, connect_runs, execute_command_runs)

  attempts_runs :
      (left : ℕ) (c : SshSession W Client)
      → runs (attempts net addr user left cmd c).1.world ≤ runs c.world + 2 * left
  unfolding attempts
  attempts_runs zero c = omega arith
  attempts_runs (suc left) c = grind (arith, exec_without_retry_runs, attempts_runs left)

  -- One call of `Exec` runs the command at most twice for each attempt.
  pub exec_runs :
      (max : ℕ) (c : SshSession W Client)
      → runs (exec net addr user max cmd c).1.world ≤ runs c.world + 2 * max
  unfolding exec
  exec_runs max c = grind (arith, connect_runs, attempts_runs)
