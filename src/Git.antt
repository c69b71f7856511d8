-- ===== src/Git.antt =====
-- uberbase/pkg/git/manager.go: which commit is deployed.
use uberbase.Common.{String, ◌<>◌, Bool, if◌then◌else◌}
use uberbase.Common.Text.{trim_space}
use uberbase.Common.Effect.{Io, pure, wrap, ◌>>=◌, ◌>>◌}

-- `GitManager`, but for its executors
pub record GitManager : Type 0 where
  pub local_work_dir : String
  pub remote_work_dir : String
  pub remote : String
  pub sha : String

module _ {W : Type 0} (local_exec remote_exec : String → Io W String) where
  -- `GetCurrentRepoURL`
  unfoldable pub get_current_repo_url : String → Io W String
  unfolding trim_space
  get_current_repo_url dir = do
    remote ←
        wrap "failed to get git remote: "
          (local_exec ("cd " <> (dir <> " && git config --get remote.origin.url")))
    pure (trim_space remote)

  -- `GetCurrentCommit`
  unfoldable pub get_current_commit : String → Io W String
  unfolding trim_space
  get_current_commit dir = do
    sha ←
        wrap "failed to get current commit: "
          (local_exec ("cd " <> (dir <> " && git rev-parse HEAD")))
    pure (trim_space sha)

  -- `NewGitManager`
  unfoldable pub new_git_manager : String → String → Io W GitManager
  unfolding get_current_repo_url get_current_commit
  new_git_manager local_dir remote_dir = do
    remote ← wrap "failed to get current repo URL: " (get_current_repo_url local_dir)
    sha ← wrap "failed to get current commit: " (get_current_commit local_dir)
    pure (record {
      local_work_dir = local_dir;
      remote_work_dir = remote_dir;
      remote = remote;
      sha = sha;
    })

  -- `Fetch`; `missing` is the answer of os.Stat on this machine
  unfoldable pub fetch : Bool → GitManager → Io W (Unit {0})
  fetch missing g = do
    wrap "failed to fetch repository: " (
        remote_exec (
          if missing
          then "git clone " <> (g.remote <> (" " <> g.remote_work_dir))
          else "git -C " <> (g.remote_work_dir <> " pull")))
    pure tt
