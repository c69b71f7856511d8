-- ===== src/Examples/Connection.antt =====
-- The connection and the remote executor, over a network that drops the first command.
use uberbase.Common.{ℕ, zero, suc, ◌≤◌, ◌≢◌, refl, String, false, none, arith}
use uberbase.Common.Effect.{here, nil_dereference, Result, ok, err, panicked}
use uberbase.Ssh.{Network, SshSession, connect, execute_command, transfer_file}
use uberbase.Ssh.Laws.{Settled, execute_command-Settled, transfer_file-no_panic}
use uberbase.Common.Text.{contains}
use uberbase.Core.Remote.{exec, exec_without_retry, is_transport_error}
use uberbase.Core.Remote.Laws.{Ran, exec-Ran, exec_runs}

-- what the run answers, by the number of runs before it
abbrev answer_of : ℕ → Result String
answer_of zero = err "connection reset by peer"
answer_of (suc n) = ok "done"

abbrev flaky : Network ℕ (Unit {0}) (Unit {0})
flaky = record {
  dial = λ addr user runs. (ok tt, runs);
  new_session = λ client runs. (ok tt, runs);
  run = λ session cmd runs. (answer_of runs, suc runs);
  copy_file = λ client local_path remote_path runs. (ok tt, runs);
}

abbrev fresh : SshSession ℕ (Unit {0})
fresh = record { client = none; closed = false; world = 0 }

exec-Ran_example : Ran flaky "host" "root" "ls" "done"
unfolding exec exec_without_retry execute_command connect is_transport_error contains
exec-Ran_example = exec-Ran flaky "host" "root" 2 fresh "ls" "done" refl

exec_runs_example : (exec flaky "host" "root" 3 "ls" fresh).1.world ≤ 6
exec_runs_example =
    exec_runs flaky "host" "root" "ls" (λ runs. runs) (λ w. refl) (λ client w. refl)
      (λ session w. omega arith) 3 fresh

execute_command-Settled_example :
    let (r, d) = execute_command flaky "host" "root" "ls" fresh in Settled r d
execute_command-Settled_example = execute_command-Settled flaky "host" "root" fresh "ls"

transfer_file-no_panic_example :
    (transfer_file flaky "host" "root" "a.yml" "b.yml" fresh).0 ≢ panicked (here nil_dereference)
transfer_file-no_panic_example =
    transfer_file-no_panic flaky "host" "root" fresh "a.yml" "b.yml" (here nil_dereference)
      (λ w e h. cc) (λ client w e h. cc) (λ client w e h. cc)
