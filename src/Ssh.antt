-- ===== src/Ssh.antt =====
-- uberbase/pkg/ssh/session.go: one SSH connection, opened when it is first needed.
pub mod Key
pub mod Laws
use uberbase.Common.{String, ◌<>◌, Bool, true, false, Option, none, some}
use uberbase.Common.Effect.{
  here, nil_dereference, Result, ok, err, panicked, Io, pure, fail, wrap, either, ◌>>=◌, ◌>>◌,
}

-- What the packages golang.org/x/crypto/ssh, pkg/sftp, os and io do, over an unknown world.
-- `copy_file` is the rest of a transfer: it opens both files, makes the directory and copies.
pub record Network (W Client Session : Type 0) : Type 0 where
  pub dial : String → String → Io W Client
  pub new_session : Client → Io W Session
  pub run : Session → String → Io W String
  pub copy_file : Client → String → String → Io W (Unit {0})

-- `SSHSession` beside the world. The address and the user are arguments of `connect`: they never
-- change.
pub record SshSession (W Client : Type 0) : Type 0 where
  pub client : Option Client
  pub closed : Bool
  pub world : W

module _ {W Client Session : Type 0} (net : Network W Client Session) (addr user : String) where
  -- an action on the world alone
  abbrev pub outside : {A : Type 0} → Io W A → Io (SshSession W Client) A
  outside m c = let (r, w') = m c.world in (r, record c { world = w' })

  -- `c.client = nil; c.closed = true; return err`
  abbrev drop_client : {A : Type 0} → String → Io (SshSession W Client) A
  drop_client e c = (err e, record c { client = none; closed = true })

  open_session : Client → Io (SshSession W Client) Session
  open_session client =
      either (outside (net.new_session client))
        (λ session c. (ok session, record c { closed = false })) drop_client

  mark_closed : {A : Type 0} → String → Io (SshSession W Client) A
  mark_closed e c = (err e, record c { closed = true })

  dial_first : Io (SshSession W Client) Session
  unfolding open_session mark_closed
  dial_first =
      either (outside (net.dial addr user))
        (λ client c. open_session client (record c { client = some client })) mark_closed

  abbrev connect_with : Option Client → Io (SshSession W Client) Session
  unfolding dial_first open_session
  connect_with none = dial_first
  connect_with (some client) = open_session client

  -- `Connect`
  unfoldable pub connect : Io (SshSession W Client) Session
  unfolding dial_first open_session
  connect c = connect_with c.client c

  -- `ExecuteCommand`; what goes to the log is not modelled
  unfoldable pub execute_command : String → Io (SshSession W Client) String
  execute_command cmd = do
    session ← connect
    either (outside (net.run session cmd)) pure drop_client

  -- `TransferFile`
  abbrev transfer_over : Option Client → String → String → Io (SshSession W Client) (Unit {0})
  transfer_over none local_path remote_path = λ c. (panicked (here nil_dereference), c)
  transfer_over (some client) local_path remote_path =
      outside (net.copy_file client local_path remote_path)

  unfoldable pub transfer_file : String → String → Io (SshSession W Client) (Unit {0})
  transfer_file local_path remote_path = wrap "failed to establish SSH connection: " connect >> λ c.
      transfer_over c.client local_path remote_path c

-- `Close`; closing the client is an action on the network that cannot be seen later
unfoldable pub close : {W Client : Type 0} → SshSession W Client → SshSession W Client
close c = record c { client = none; closed = true }

-- `IsClosed`
unfoldable pub is_closed : {W Client : Type 0} → SshSession W Client → Bool
is_closed c = c.closed
