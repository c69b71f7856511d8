-- ===== src/Containers/Inspect.antt =====
-- uberbase/pkg/containers/container.go: what a running container says of itself.
use uberbase.Common.{String, ◌<>◌, Bool, List, ◌∷◌}
use uberbase.Common.Int.{ℤ}
use uberbase.Common.Text.{split}
use uberbase.Common.Effect.{Result, Io, pure, fail, wrap, ◌>>=◌}
use uberbase.Utils.{colon}
use uberbase.Containers.{Service, ContainerExecutor}

pub record ContainerState : Type 0 where
  pub status : String
  pub running : Bool
  pub paused : Bool
  pub restarting : Bool
  pub oom_killed : Bool
  pub dead : Bool
  pub started_at : String
  pub finished_at : String
  pub pid : ℤ
  pub exit_code : ℤ
  pub error : String

pub record ContainerInspectInfo : Type 0 where
  pub id : String
  pub state : ContainerState

module _ {W : Type 0} (e : ContainerExecutor W) where
  -- the test on `len(parts)`; the error that is wrapped here is nil
  abbrev second_part : List String → Io W String
  second_part (_ ∷ part ∷ _) = pure part
  second_part _ = fail "failed to get container tag: %!w(<nil>)"

  -- `GetContainerTag`
  unfoldable pub get_container_tag : Service → Io W String
  unfolding split
  get_container_tag service = do
    container ←
        wrap "failed to get container tag: "
          (e.exec_compose ("inspect -f '{{.Config.Image}}' " <> service.name))
    second_part (split colon container)

  -- `Inspect`; `decode` is `json.Unmarshal` into a `ContainerInspectInfo`
  unfoldable pub inspect :
      (String → Result ContainerInspectInfo) → String → Io W ContainerInspectInfo
  inspect decode container_id = do
    output ← wrap "failed to inspect container: " (e.exec_compose ("inspect " <> container_id))
    wrap "failed to unmarshal inspect output: " (λ w. (decode output, w))
