-- ===== src/State/Manager/RoundTrip.antt =====
-- What is loaded after a save.
use uberbase.Common.{true, String, ◌<>◌, ◌≡◌, Option, none, some, [], arith}
use uberbase.Common.Effect.{Result, ok, err, panicked, Io}
use uberbase.Common.Effect.Steady.{works}
use uberbase.State.{DeploymentState}
use uberbase.State.Manager.{StateManager, Codec, Paths, load, write, save}

-- What the shell of the host does with the state file. `content` is its text in a world.
pub record IsFaithful {W : Type 0} (exec : String → Io W String) (paths : Paths)
    (work_dir text : String) (content : W → Option String) : Type 0 where
  pub after_heredoc :
      (w : W)
      → let ran =
          exec
            ("cat <<'EOF' > "
              <> (paths.join work_dir "deployment-state.yml" <> ("\n" <> (text <> "\nEOF"))))
            w in
        works ran.0 ≡ true → content ran.1 ≡ some (text <> "\n")
  pub test_keeps :
      (w : W)
      → content (exec ("test -f " <> paths.join work_dir "deployment-state.yml") w).1 ≡ content w
  pub after_cat :
      (w : W) (c shown : String)
      → content w ≡ some c
      → (exec ("cat " <> paths.join work_dir "deployment-state.yml") w).0 ≡ ok shown
      → shown ≡ c

-- What a load gives where this state was saved, by what became of its two commands. An error of the
-- first one, whatever its reason, stands for a missing file.
abbrev pub loaded :
    {Volume Network : Type 0}
    → DeploymentState Volume Network
    → Result String
    → Result String
    → Result (DeploymentState Volume Network)
loaded saved (ok tested) (ok shown) = ok saved
loaded saved (ok tested) (err e) = err ("failed to read state file: " <> e)
loaded saved (ok tested) (panicked e) = panicked e
loaded saved (err e) cat = ok (record {
  tag = "";
  compose = some (record { services = []; volumes = []; networks = [] });
  traefik = some (record { tag = ""; configs = [] });
  lock = none;
})
loaded saved (panicked e) cat = panicked e

module _ {Volume Network W : Type 0} (exec : String → Io W String) (codec : Codec Volume Network)
    (paths : Paths) (work_dir text : String) (content : W → Option String)
    (host : IsFaithful exec paths work_dir text content) where
  write-content :
      (s : DeploymentState Volume Network) (w : W)
      → codec.encode s ≡ ok text
      → (write exec codec paths work_dir s w).0 ≡ ok tt
      → content (write exec codec paths work_dir s w).1 ≡ some (text <> "\n")
  unfolding write
  write-content s w e h =
      ground (arith, host.after_heredoc (exec ("mkdir -p " <> paths.dir work_dir) w).1)

  load-content :
      (s : DeploymentState Volume Network) (w : W)
      → codec.decode (text <> "\n") ≡ ok s
      → content w ≡ some (text <> "\n")
      → let tested = exec ("test -f " <> paths.join work_dir "deployment-state.yml") w in
        (load exec codec paths work_dir w).0
        ≡ loaded s tested.0 (exec ("cat " <> paths.join work_dir "deployment-state.yml") tested.1).0
  unfolding load
  load-content s w d h =
      let tested = (exec ("test -f " <> paths.join work_dir "deployment-state.yml") w).1 in
      grind (arith, host.test_keeps w, host.after_cat tested (text <> "\n"))

  -- On a host that keeps the text of a heredoc that worked and shows it by a `cat` that works, and
  -- with a library that reads its own text: a load after a successful save gives the saved state
  -- back, if its test and its read of the file work. Where the test ends in an error it gives an empty state, and no error; an error of the
  -- read comes back.
  pub load-save :
      (m : StateManager Volume Network W)
      → codec.encode m.current_state ≡ ok text
      → codec.decode (text <> "\n") ≡ ok m.current_state
      → (save exec codec paths work_dir m).0 ≡ ok tt
      → let w = (save exec codec paths work_dir m).1.world in
        let tested = exec ("test -f " <> paths.join work_dir "deployment-state.yml") w in
        (load exec codec paths work_dir w).0
        ≡ loaded m.current_state tested.0
            (exec ("cat " <> paths.join work_dir "deployment-state.yml") tested.1).0
  unfolding save
  load-save m e d h =
      load-content m.current_state _ d (write-content m.current_state m.world e (ground (arith, h)))
