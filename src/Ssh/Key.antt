-- ===== src/Ssh/Key.antt =====
-- uberbase/pkg/ssh/key.go: a private key, read once from the environment or from a file.
pub mod Laws
use uberbase.Common.{
  ℕ, String, ◌<>◌, ◌==◌, ◌≡◌, Bool, true, false, Option, none, some, arith, nat_eq, if◌then◌else◌,
}
use uberbase.Common.Decimal.{decimal}
use uberbase.Common.Effect.{Result, ok, err, panicked}
use uberbase.Common.Results.{◌>>=◌}
use uberbase.Utils.{expand_tilde_local}

-- The two constants of `SSHKeySource`, an int.
abbrev pub environment : ℕ
environment = 0

abbrev pub file : ℕ
file = 1

pub record SshKey (Auth : Type 0) : Type 0 where
  pub source : ℕ
  pub loaded : Bool
  pub env_key : String
  pub file_key : String
  pub auth : Option Auth

-- The process's surroundings: `os.Getenv`, `os.ReadFile`, `filepath.Abs`, `ssh.ParsePrivateKey`
-- with `ssh.PublicKeys`.
pub record Surroundings (Auth : Type 0) : Type 0 where
  pub getenv : String → String
  pub read_file : String → Result String
  pub abs : String → Result String
  pub parse_private_key : String → Result Auth

module _ {Auth : Type 0} where
  -- `NewSSHKey`
  unfoldable pub new_ssh_key : ℕ → String → String → SshKey Auth
  new_ssh_key source env_key file_key = record {
    source = source;
    loaded = false;
    env_key = env_key;
    file_key = file_key;
    auth = none;
  }

  load_from_file : Surroundings Auth → SshKey Auth → Result Auth
  load_from_file os k = do
    path ← expand_tilde_local (os.getenv "HOME") os.abs k.file_key
    bytes ← os.read_file path
    os.parse_private_key bytes

  load_from_environment : Surroundings Auth → SshKey Auth → Result Auth
  load_from_environment os k =
      let text = os.getenv k.env_key in
      if text == ""
      then err ("environment variable " <> (k.env_key <> " is not set"))
      else os.parse_private_key text

  -- `k.auth, err = …`, the test of `err`, and `k.loaded = true`, which both loaders set too
  store_key : SshKey Auth → Result Auth → Result (Option Auth) × SshKey Auth
  store_key k (ok a) = (ok (some a), record k { loaded = true; auth = some a })
  store_key k (err e) = (err e, record k { auth = none })
  store_key k (panicked e) = (panicked e, k)

  -- `Load`
  unfoldable pub load : Surroundings Auth → SshKey Auth → Result (Option Auth) × SshKey Auth
  unfolding store_key load_from_file load_from_environment
  load os k =
      if k.loaded
      then (ok k.auth, k)
      else if nat_eq k.source environment
      then store_key k (load_from_environment os k)
      else if nat_eq k.source file
      then store_key k (load_from_file os k)
      else (err ("invalid key source: " <> decimal k.source), k)

-- `IsLoaded`
unfoldable pub is_loaded : {Auth : Type 0} → SshKey Auth → Bool
is_loaded k = k.loaded
