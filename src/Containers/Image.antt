-- ===== src/Containers/Image.antt =====
-- uberbase/pkg/containers/image.go: the images of the services that the project builds.
pub mod Laws
use uberbase.Common.{
  String, ◌<>◌, ◌==◌, Bool, true, false, not, Option, none, some, List, [], ◌∷◌, ◌++◌,
  if◌then◌else◌,
}
use uberbase.Common.Dict.{Dict}
use uberbase.Common.Text.{has_prefix, join}
use uberbase.Common.Effect.{
  nil_dereference, Result, ok, err, panicked, Io, pure, crash, wrap, either, ◌>>=◌,
}
use uberbase.Utils.{strip_tag}
use uberbase.Containers.{BuildConfig, Service}

-- the loop over `service.Build.Args`; `*v` panics where the argument has no value
build_arg_list : Dict (Option String) → Option (List String)
build_arg_list [] = some []
build_arg_list ((k, none) ∷ args) = none
build_arg_list ((k, some v) ∷ args) = elim (build_arg_list args) [
  | none ↦ none
  | some rest ↦ some ("--build-arg" ∷ (k <> ("=" <> v)) ∷ rest)
]

-- `-f` with the path of the Dockerfile, under the context if it does not begin with it
dockerfile_args : BuildConfig → List String
unfolding has_prefix
dockerfile_args b =
    if b.dockerfile == ""
    then []
    else if not (has_prefix b.dockerfile b.context)
    then "-f" ∷ (b.context <> ("/" <> b.dockerfile)) ∷ []
    else "-f" ∷ b.dockerfile ∷ []

-- the reference that `Pull` asks for
unfoldable pub pull_ref : String → Service → Option BuildConfig → String
unfolding strip_tag
pull_ref tag s none = s.image
pull_ref tag s (some b) = strip_tag s.image <> (":" <> tag)

module _ {W : Type 0} (exec : String → Io W String) (tag : String) where
  build_one : Service → BuildConfig → Option (List String) → Io W String
  unfolding dockerfile_args strip_tag join
  build_one s b none = crash nil_dereference
  build_one s b (some args) = wrap "failed to build image: " (
      exec (
        "builder build "
        <> join
            (args
              ++ ("--tag" ∷ (strip_tag s.image <> (":" <> tag)) ∷ []
                  ++ (dockerfile_args b ++ (b.context ∷ []))))
            " "))

  -- the loop of `Build`, over the output so far
  build_from : String → List Service → Io W String
  build_from output [] = pure output
  build_from output (s ∷ services) = elim s.build [
    | none ↦ build_from output services
    | some b ↦
        build_one s b (build_arg_list b.args) >>= λ built. build_from (output <> built) services
  ]

  -- `Build`
  unfoldable pub build : List Service → Io W String
  unfolding build_from build_one build_arg_list
  build services = build_from "" services

  pull_from : String → List Service → Io W String
  unfolding pull_ref
  pull_from output [] = pure output
  pull_from output (s ∷ services) =
      if s.image == ""
      then pull_from output services
      else (wrap "failed to pull image: " (exec ("pull " <> pull_ref tag s s.build)) >>= λ pulled.
          pull_from (output <> pulled) services)

  -- `Pull`
  unfoldable pub pull : List Service → Io W String
  unfolding pull_from
  pull services = pull_from "" services

  push_from : String → List Service → Io W String
  unfolding strip_tag
  push_from output [] = pure output
  push_from output (s ∷ services) = elim s.build [
    | none ↦ push_from output services
    | some b ↦
        wrap "failed to push image: " (exec ("push " <> (strip_tag s.image <> (":" <> tag))))
        >>= λ pushed. push_from (output <> pushed) services
  ]

  -- `Push`
  unfoldable pub push : List Service → Io W String
  unfolding push_from
  push services = push_from "" services

-- `CompareTags`
unfoldable pub compare_tags :
    {W : Type 0} → (String → Io W String) → String → String → String → Io W Bool
compare_tags exec image first second = do
  first_hash ←
      wrap "failed to get first tag hash: "
        (exec ("image inspect --format '{{.Id}}' " <> (image <> (":" <> first))))
  second_hash ←
      wrap "failed to get second tag hash: "
        (exec ("image inspect --format '{{.Id}}' " <> (image <> (":" <> second))))
  pure (first_hash == second_hash)
