-- ===== src/Examples/Images.antt =====
-- References to images, the override and the commands on images.
use mathlib.Core.Option
use mathlib.Core.List.Perm
use uberbase.Containers.Override.Order.{new_compose_override-order}
use uberbase.Common.{◌<>◌, ◌≡◌, refl, [], ◌∷◌, map}
use uberbase.Common.Dict.{lookup}
use uberbase.Utils.{strip_tag}
use uberbase.Utils.Laws.{strip_tag_plain}
use uberbase.Containers.Image.{build, push, pull}
use uberbase.Containers.Image.Laws.{
  pulled_ref, built, with_image, image_ref, sequence, push-sequence, pull-sequence, build-sequence,
  build_commands,
}
use uberbase.Containers.Override.{new_compose_override}
use uberbase.Examples.{answering, api, db}

strip_tag_plain_example : strip_tag "postgres" ≡ "postgres"
strip_tag_plain_example =
    strip_tag_plain "postgres" (refl, (refl, (refl, (refl, (refl, (refl, (refl, (refl, tt))))))))

push-sequence_example :
    push (answering "ok ") "abc" (db ∷ api ∷ []) []
    ≡ sequence
        (answering "ok ")
        "failed to push image: "
        ""
        (map (λ s. "push " <> image_ref "abc" s) (built (db ∷ api ∷ [])))
        []
push-sequence_example = push-sequence (answering "ok ") "abc" (db ∷ api ∷ []) []

pull-sequence_example :
    pull (answering "ok ") "abc" (db ∷ api ∷ []) []
    ≡ sequence
        (answering "ok ")
        "failed to pull image: "
        ""
        (map (λ s. "pull " <> pulled_ref "abc" s) (with_image (db ∷ api ∷ [])))
        []
pull-sequence_example = pull-sequence (answering "ok ") "abc" (db ∷ api ∷ []) []

build-sequence_example :
    build (answering "ok ") "abc" (db ∷ api ∷ []) []
    ≡ sequence
        (answering "ok ")
        "failed to build image: "
        ""
        (build_commands "abc" (db ∷ api ∷ []))
        []
build-sequence_example = build-sequence (answering "ok ") "abc" (db ∷ api ∷ []) [] (tt, (tt, tt))

new_compose_override-order_example :
    lookup "api" (new_compose_override (db ∷ api ∷ []) "abc")
    ≡ lookup "api" (new_compose_override (api ∷ db ∷ []) "abc")
new_compose_override-order_example =
    new_compose_override-order "abc" "api" (db ∷ api ∷ []) (api ∷ db ∷ []) (Perm.swap api db [])
      (refl, (refl, tt))
