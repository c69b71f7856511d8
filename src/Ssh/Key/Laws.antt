-- ===== src/Ssh/Key/Laws.antt =====
-- A loaded key, and where it came from.
use uberbase.Common.{◌<>◌, String, ◌≡◌, refl, Bool, true, false, Option, some, arith, if◌then◌else◌}
use uberbase.Common.Effect.{Result, ok, err, panicked}
use uberbase.Common.Results.{Result-bind-ok}
use uberbase.Utils.{expand_tilde_local}
use uberbase.Ssh.Key.{
  SshKey, Surroundings, environment, file, new_ssh_key, store_key, load_from_file,
  load_from_environment, load,
}

module _ {Auth : Type 0} where
  load-store_key :
      (os : Surroundings Auth) (k : SshKey Auth) (r : Result Auth) {a : Option Auth}
      → (store_key k r).0 ≡ ok a
      → load os (store_key k r).1 ≡ (ok a, (store_key k r).1)
  unfolding load
  load-store_key os k (ok b) e = ground arith
  load-store_key os k (err m) e = cc
  load-store_key os k (panicked m) e = cc

  -- A key that has been loaded is given again unchanged, in whatever surroundings it is asked for
  -- later.
  pub load_cached :
      (os os' : Surroundings Auth) (k : SshKey Auth) {a : Option Auth}
      → (load os k).0 ≡ ok a
      → load os' (load os k).1 ≡ (ok a, (load os k).1)
  unfolding load
  load_cached os os' k e = ground (
    arith,
    load-store_key os' k (load_from_environment os k),
    load-store_key os' k (load_from_file os k),
  )

  -- the text of a key: a variable's value, or a file's
  abbrev pub KeyText : Surroundings Auth → Bool → String → String → String → Type 0
  KeyText os true env_key file_key text = os.getenv env_key ≡ text
  KeyText os false env_key file_key text =
      (path : String) × (expand_tilde_local (os.getenv "HOME") os.abs file_key ≡ ok path)
      × (os.read_file path ≡ ok text)

  from_environment :
      (os : Surroundings Auth) (k : SshKey Auth) {a : Auth}
      → load_from_environment os k ≡ ok a
      → os.parse_private_key (os.getenv k.env_key) ≡ ok a
  unfolding load_from_environment
  from_environment os k h = ground arith

  from_file :
      (os : Surroundings Auth) (k : SshKey Auth) {a : Auth}
      → load_from_file os k ≡ ok a
      → (text : String) × KeyText os false k.env_key k.file_key text
        × (os.parse_private_key text ≡ ok a)
  unfolding load_from_file
  from_file os k h =
      let (path, found, h) = Result-bind-ok _ _ h in
      let (text, read, parsed) = Result-bind-ok _ _ h in (text, (path, found, read), parsed)

  stored :
      (k : SshKey Auth) (r : Result Auth) {a : Option Auth}
      → (store_key k r).0 ≡ ok a
      → (auth : Auth) × (r ≡ ok auth) × (a ≡ some auth)
  unfolding store_key
  stored k (ok auth) h = (auth, refl, cc h)
  stored k (err e) h = cc h
  stored k (panicked e) h = cc h

  -- The first `Load` of a key succeeds only with what the parser makes of a text that is not
  -- missing: of the variable, or of the file.
  pub load-KeyText :
      (os : Surroundings Auth) (from_env : Bool) (env_key file_key : String) {a : Option Auth}
      → (load os (new_ssh_key (if from_env then environment else file) env_key file_key)).0 ≡ ok a
      → (auth : Auth) × (text : String) × KeyText os from_env env_key file_key text
        × (os.parse_private_key text ≡ ok auth)
        × (a ≡ some auth)
  unfolding load new_ssh_key
  load-KeyText os true env_key file_key h =
      let (auth, loaded, e) = stored _ _ h in
      (
        auth,
        os.getenv env_key,
        refl,
        from_environment os (new_ssh_key environment env_key file_key) loaded,
        e,
      )
  load-KeyText os false env_key file_key h =
      let (auth, loaded, e) = stored _ _ h in
      let (text, read, parsed) = from_file os (new_ssh_key file env_key file_key) loaded in
      (auth, text, read, parsed, e)

  -- A key from the environment cannot be loaded where its variable is not set.
  pub load_unset :
      (os : Surroundings Auth) (from_env : Bool) (env_key file_key : String)
      → from_env ≡ true
      → os.getenv env_key ≡ ""
      → (load os (new_ssh_key (if from_env then environment else file) env_key file_key)).0
        ≡ err ("environment variable " <> (env_key <> " is not set"))
  unfolding load new_ssh_key load_from_environment store_key
  load_unset os true env_key file_key chosen unset = rw unset
  load_unset os false env_key file_key chosen unset = cc
