-- ===== src/Containers/Image/Laws.antt =====
-- `Build`, `Push` and `Pull` against the plain sequence of their commands.
use uberbase.Common.{
  arith, String, ◌<>◌, ◌==◌, ◌≡◌, refl, ◌≢◌, Option, ◌++◌, All, Bool-cases, Option-cases, inl, inr,
  none, some, List, [], ◌∷◌, map, if◌then◌else◌,
}
use uberbase.Common.Effect.{Io, pure, wrap, ◌>>=◌}
use uberbase.Common.Effect.Laws.{bind-cong}
use mathlib.Core.Path.{subst}
use uberbase.Common.Dict.{Dict}
use uberbase.Common.Text.{join}
use uberbase.Utils.{strip_tag}
use uberbase.Containers.{BuildConfig, Service}
use uberbase.Containers.Image.{
  build_arg_list, dockerfile_args, build_one, build_from, build, push_from, push, pull_ref,
  pull_from, pull,
}

-- The services that the project builds.
unfoldable pub built : List Service → List Service
built [] = []
built (s ∷ services) = elim s.build [ none ↦ built services | some b ↦ s ∷ built services ]

-- The services that name an image.
unfoldable pub with_image : List Service → List Service
with_image [] = []
with_image (s ∷ services) =
    let rest = with_image services in if s.image == "" then rest else s ∷ rest

-- The reference under which the image of a service is built for a tag.
abbrev pub image_ref : String → Service → String
image_ref tag s = strip_tag s.image <> (":" <> tag)

-- The image that a service is to run: the one that is built for a tag, or the one that it lists.
abbrev pub pulled_ref : String → Service → String
pulled_ref tag s = elim s.build [ none ↦ s.image | some b ↦ strip_tag s.image <> (":" <> tag) ]

pull_ref-eq : (tag : String) (s : Service) → pull_ref tag s s.build ≡ pulled_ref tag s
unfolding pull_ref
pull_ref-eq tag s = ground arith

-- Every argument of the build has a value.
abbrev pub IsValued : Option BuildConfig → Type 0
IsValued none = Unit
IsValued (some b) = All (λ arg. arg.1 ≢ none) b.args

abbrev pub Valued : Service → Type 0
Valued s = IsValued s.build

-- what stands between the arguments' values and the context in the command that builds an image
abbrev arg_texts : Dict (Option String) → List String
arg_texts [] = []
arg_texts ((k, none) ∷ args) = arg_texts args
arg_texts ((k, some v) ∷ args) = "--build-arg" ∷ (k <> ("=" <> v)) ∷ arg_texts args

build_arg_list-values :
    (args : Dict (Option String))
    → All (λ arg. arg.1 ≢ none) args
    → build_arg_list args ≡ some (arg_texts args)
unfolding build_arg_list
build_arg_list-values [] h = refl
build_arg_list-values ((k, none) ∷ args) (h, hs) = absurd (h refl)
build_arg_list-values ((k, some v) ∷ args) (h, hs) = rw (build_arg_list-values args hs)

abbrev pub build_command : String → Service → BuildConfig → String
unfolding dockerfile_args join
build_command tag s b =
    "builder build "
    <> join
        (arg_texts b.args
          ++ ("--tag" ∷ image_ref tag s ∷ [] ++ (dockerfile_args b ++ (b.context ∷ []))))
        " "

unfoldable pub build_commands : String → List Service → List String
build_commands tag [] = []
build_commands tag (s ∷ services) =
    let rest = build_commands tag services in
    elim s.build [ none ↦ rest | some b ↦ build_command tag s b ∷ rest ]

module _ {W : Type 0} (exec : String → Io W String) where
  -- Commands one after the other until one fails, with their outputs joined.
  unfoldable pub sequence : String → String → List String → Io W String
  sequence text output [] = pure output
  sequence text output (cmd ∷ cmds) =
      wrap text (exec cmd) >>= λ more. sequence text (output <> more) cmds

  module _ (tag : String) where
    push_from-sequence :
        (services : List Service) (output : String) (w : W)
        → push_from exec tag output services w
          ≡ sequence "failed to push image: " output
              (map (λ s. "push " <> image_ref tag s) (built services))
              w
    unfolding push_from sequence built
    push_from-sequence [] output w = refl
    push_from-sequence (s ∷ services) output w = elim (Option-cases s.build) [
      | inl e ↦ rw (e, push_from, built) (push_from-sequence services output w)
      | inr (b, e) ↦
          rw (e, push_from, built)
            (bind-cong (wrap "failed to push image: " (exec ("push " <> image_ref tag s))) _ _ w
              (λ more v. push_from-sequence services (output <> more) v))
    ]

    -- `Push` pushes the built image of each service that has a build, in order, and stops at the
    -- first failure.
    pub push-sequence :
        (services : List Service) (w : W)
        → push exec tag services w
          ≡ sequence "failed to push image: " ""
              (map (λ s. "push " <> image_ref tag s) (built services))
              w
    unfolding push
    push-sequence services w = push_from-sequence services "" w

    pull_from-sequence :
        (services : List Service) (output : String) (w : W)
        → pull_from exec tag output services w
          ≡ sequence "failed to pull image: " output
              (map (λ s. "pull " <> pulled_ref tag s) (with_image services))
              w
    unfolding pull_from sequence with_image
    pull_from-sequence [] output w = refl
    pull_from-sequence (s ∷ services) output w = elim (Bool-cases (s.image == "")) [
      | inl e ↦ rw (e, pull_from, with_image) (pull_from-sequence services output w)
      | inr e ↦
          rw (e, pull_from, with_image, pull_ref-eq tag s)
            (bind-cong (wrap "failed to pull image: " (exec ("pull " <> pulled_ref tag s))) _ _ w
              (λ more v. pull_from-sequence services (output <> more) v))
    ]

    -- `Pull` pulls the image of each service that names one, in order, and stops at the first
    -- failure: the image just built for a service with a build, and the listed one for any other.
    pub pull-sequence :
        (services : List Service) (w : W)
        → pull exec tag services w
          ≡ sequence "failed to pull image: " ""
              (map (λ s. "pull " <> pulled_ref tag s) (with_image services))
              w
    unfolding pull
    pull-sequence services w = pull_from-sequence services "" w

    build_from-sequence :
        (services : List Service) (output : String) (w : W)
        → All Valued services
        → build_from exec tag output services w
          ≡ sequence "failed to build image: " output (build_commands tag services) w
    unfolding build_from build_one sequence build_commands
    build_from-sequence [] output w h = refl
    build_from-sequence (s ∷ services) output w (h, hs) = elim (Option-cases s.build) [
      | inl e ↦ rw (e, build_from) (build_from-sequence services output w hs)
      | inr (b, e) ↦
          rw (e, build_from, build_arg_list-values b.args (subst IsValued e h))
            (bind-cong (wrap "failed to build image: " (exec (build_command tag s b))) _ _ w
              (λ more v. build_from-sequence services (output <> more) v hs))
    ]

    -- Where no argument of a build is without a value, `Build` builds the image of each service that
    -- has a build, in order, under the reference that `Push` pushes, and stops at the first failure.
    pub build-sequence :
        (services : List Service) (w : W)
        → All Valued services
        → build exec tag services w
          ≡ sequence "failed to build image: " "" (build_commands tag services) w
    unfolding build
    build-sequence services w h = build_from-sequence services "" w h
