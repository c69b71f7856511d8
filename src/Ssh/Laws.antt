-- ===== src/Ssh/Laws.antt =====
-- What the connection's two flags say after each operation.
use uberbase.Common.{String, ◌≡◌, ◌≢◌, true, false, none, arith}
use uberbase.Common.Effect.{Panic, Result, ok, err, panicked}
use uberbase.Ssh.{Network, SshSession, connect, execute_command, transfer_file}

-- After a call that returns no error there is an open connection; after one that returns an error
-- there is none, so that the next call dials again.
pub record Settled {W Client A : Type 0} (r : Result A) (c : SshSession W Client) : Type 0 where
  pub opened : (a : A) → r ≡ ok a → (c.closed ≡ false) × (c.client ≢ none)
  pub dropped : (e : String) → r ≡ err e → (c.closed ≡ true) × (c.client ≡ none)

module _ {W Client Session : Type 0} (net : Network W Client Session) (addr user : String) where
  -- The same holds after the attempt to connect that every call begins with.
  pub connect-Settled :
      (c : SshSession W Client) → let (r, d) = connect net addr user c in Settled r d
  unfolding connect
  connect-Settled c = record { opened = λ a h. ground arith; dropped = λ e h. ground arith }

  -- A command that succeeds leaves an open connection behind, and one that returns an error leaves
  -- none, so that the next command dials again.
  pub execute_command-Settled :
      (c : SshSession W Client) (cmd : String)
      → let (r, d) = execute_command net addr user cmd c in Settled r d
  unfolding execute_command
  execute_command-Settled c cmd = record {
    opened = λ a h. unfold connect in ground arith;
    dropped = λ e h. unfold connect in ground arith;
  }

  -- A transfer never meets a missing client: it panics only if the network does.
  pub transfer_file-no_panic :
      (c : SshSession W Client) (local_path remote_path : String) (text : Panic)
      → ((w : W) (e : Panic) → (net.dial addr user w).0 ≢ panicked e)
      → ((client : Client) (w : W) (e : Panic) → (net.new_session client w).0 ≢ panicked e)
      → ((client : Client) (w : W) (e : Panic)
          → (net.copy_file client local_path remote_path w).0 ≢ panicked e)
      → (transfer_file net addr user local_path remote_path c).0 ≢ panicked text
  unfolding transfer_file connect
  transfer_file-no_panic c l r t p q s = grind arith
