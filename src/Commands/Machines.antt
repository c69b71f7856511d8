-- ===== src/Commands/Machines.antt =====
-- The two executors of a deployment side by side, uberbase/pkg/core/local.go and remote.go: what
-- their installers have found out, and the one session with the other machine.
pub mod Laws
use uberbase.Common.{String, ◌<>◌, false, Option, none}
use uberbase.Common.Int.{ℤ}
use uberbase.Common.Decimal.{decimal_int}
use uberbase.Common.Effect.{Result, ok, Io, add_context}
use uberbase.Common.Results.{◌>>=◌}
use uberbase.Ssh.{Network, SshSession}
use uberbase.Ssh.Key.{SshKey, Surroundings, load}
use uberbase.Core.{Executor}
use uberbase.Core.Installer.{Platform, Host}
use uberbase.Core.Local
use uberbase.Core.Remote
use uberbase.Core.Remote.{default_max_retries}

pub record Machines (W Client : Type 0) : Type 0 where
  pub local_platform : Option Platform
  pub remote_platform : Option Platform
  pub session : SshSession W Client

-- `SSHConfig`
pub record SshConfig (Auth : Type 0) : Type 0 where
  pub host : String
  pub user : String
  pub port : ℤ
  pub key : SshKey Auth

-- the fields of `SSHSession` that never change
pub record Endpoint (Auth : Type 0) : Type 0 where
  pub addr : String
  pub user : String
  pub auth : Option Auth

module _ {Auth : Type 0} where
  -- `NewSession`; it loads a copy of the key
  unfoldable pub new_session : Surroundings Auth → SshConfig Auth → Result (Endpoint Auth)
  unfolding decimal_int load
  new_session os config = add_context "failed to load SSH key: " (load os config.key).0 >>= λ auth.
      ok (record {
        addr = config.host <> (":" <> decimal_int config.port);
        user = config.user;
        auth = auth;
      })

module _ {W Client A : Type 0} where
  unfoldable pub on_world : Io W A → Io (Machines W Client) A
  on_world m s =
      let (r, w) = m s.session.world in (r, record s { session = record (s.session) { world = w } })

  unfoldable pub on_session : Io (SshSession W Client) A → Io (Machines W Client) A
  on_session m s = let (r, c) = m s.session in (r, record s { session = c })

  -- what the local installer does
  unfoldable pub on_local : Io (Host W) A → Io (Machines W Client) A
  on_local m s =
      let (r, h) = m (record { platform = s.local_platform; world = s.session.world }) in
      (
        r,
        record s { local_platform = h.platform; session = record (s.session) { world = h.world } },
      )

  -- what the remote one does
  unfoldable pub on_remote : Io (Host (SshSession W Client)) A → Io (Machines W Client) A
  on_remote m s =
      let (r, h) = m (record { platform = s.remote_platform; world = s.session }) in
      (r, record s { remote_platform = h.platform; session = h.world })

module _ {W Client : Type 0} where
  -- `NewLocalExecutor`
  unfoldable pub local_executor : (String → Io W String) → Executor (Machines W Client)
  unfolding Local.exec Local.test Local.verify Local.send_file on_world on_local
  local_executor sh_c = record {
    exec = λ cmd. on_world (Local.exec sh_c cmd);
    test = on_world (Local.test sh_c);
    verify = on_local (Local.verify sh_c);
    send_file = λ local_path remote_path. on_world (Local.send_file sh_c local_path remote_path);
  }

  -- `NewRemoteExecutor`, once it has its session
  unfoldable pub remote_executor :
      {Session : Type 0} → Network W Client Session → String → String → Executor (Machines W Client)
  unfolding Remote.exec Remote.test Remote.verify Remote.send_file on_session on_remote
  remote_executor net addr user = record {
    exec = λ cmd. on_session (Remote.exec net addr user default_max_retries cmd);
    test = on_session (Remote.test net addr user);
    verify = on_remote (Remote.verify (Remote.exec net addr user default_max_retries));
    send_file = λ local_path remote_path.
        on_session (Remote.send_file net addr user local_path remote_path);
  }

  -- nothing detected, and no connection yet
  abbrev pub unconnected : W → Machines W Client
  unconnected w = record {
    local_platform = none;
    remote_platform = none;
    session = record { client = none; closed = false; world = w };
  }
