-- ===== src/Utils/Laws.antt =====
-- When `StripTag` gives back the name of an image, and when it does not.
use uberbase.Common.{String, ◌<>◌, ◌≡◌, refl, ◌∷◌}
use uberbase.Common.Text.{Lacks, split}
use uberbase.Common.Text.Laws.{singleton-append, split_of_Lacks, split-append, split-cons}
use uberbase.Utils.{colon, strip_tag}

-- A reference without a colon is left as it is.
pub strip_tag_plain : (name : String) → Lacks colon name → strip_tag name ≡ name
unfolding strip_tag
strip_tag_plain name h = rw (split_of_Lacks colon name h)

pub split_tagged :
    (name rest : String)
    → Lacks colon name
    → split colon (name <> (":" <> rest)) ≡ name ∷ split colon rest
split_tagged name rest h = rw singleton-append (split-append colon name rest _ h refl)

-- Of a reference only what stands before its first colon is left: the name of an image with a tag,
-- but of an image in a registry with a port nothing but the registry's host.
strip_tag_tagged :
    (name rest : String) → Lacks colon name → strip_tag (name <> (":" <> rest)) ≡ name
unfolding strip_tag
strip_tag_tagged name rest h =
    let (first, parts, cons) = split-cons colon rest in rw (split_tagged name rest h, cons)
