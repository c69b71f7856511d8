-- ===== src/Core/Installer/Laws.antt =====
-- Which commands an installation runs, and on which platforms it can succeed.
use uberbase.Common.{String, eq_iff, ◌≡◌, ◌⊎◌, some, arith}
use uberbase.Common.Effect.{ok, Io}
use uberbase.Common.Effect.Laws.{bind-eq-ok, bind-run}
use uberbase.Core.Installer.{Platform, Host, require_platform, install_git_on, install_git}

-- A platform on which git can be installed.
abbrev pub HasPackages : Platform → Type 0
HasPackages p =
    (p.os ≡ "Darwin")
    ⊎ (p.os ≡ "Windows")
    ⊎ ((p.os ≡ "Linux") × ((p.distro ≡ "debian") ⊎ (p.distro ≡ "rhel") ⊎ (p.distro ≡ "alpine")))

module _ {W : Type 0} (exec : String → Io W String) where
  install_git_on-HasPackages :
      (p : Platform) (h : Host W) → (install_git_on exec p h).0 ≡ ok tt → HasPackages p
  unfolding install_git_on
  install_git_on-HasPackages p h e = ground (
    arith,
    eq_iff p.os "Darwin",
    eq_iff p.os "Linux",
    eq_iff p.os "Windows",
    eq_iff p.distro "debian",
    eq_iff p.distro "rhel",
    eq_iff p.distro "alpine",
  )

  install_git_on-platform :
      (p : Platform) (h : Host W) → (install_git_on exec p h).1.platform ≡ h.platform
  unfolding install_git_on
  install_git_on-platform p h = ground arith

  require_platform-some :
      (h : Host W) (p : Platform)
      → (require_platform exec h).0 ≡ ok p
      → (require_platform exec h).1.platform ≡ some p
  unfolding require_platform
  require_platform-some h p e = ground arith

  -- git is reported as installed only where the platform is known and has packages for it.
  pub install_git-HasPackages :
      (h : Host W)
      → (install_git exec h).0 ≡ ok tt
      → (p : Platform) × ((install_git exec h).1.platform ≡ some p) × HasPackages p
  unfolding install_git
  install_git-HasPackages h e =
      let (p, known, done) = bind-eq-ok (require_platform exec) (install_git_on exec) h e in
      (
        p,
        rw
            (
              bind-run (require_platform exec) (install_git_on exec) h known,
              install_git_on-platform p (require_platform exec h).1,
            )
            (require_platform-some h p known),
        install_git_on-HasPackages p (require_platform exec h).1 done,
      )
