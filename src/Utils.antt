-- ===== src/Utils.antt =====
-- uberbase/pkg/utils/utils.go
pub mod Laws
use uberbase.Common.{ℕ, String, ◌<>◌, ◌==◌, ◌||◌, Bool, true, false, List, [], ◌∷◌, if◌then◌else◌}
use uberbase.Common.Int.{ℤ, atoi_value}
use uberbase.Common.Text.{split, has_prefix, replace_first}
use uberbase.Common.Effect.{Result, ok, err, panicked}

abbrev pub colon : ℕ
colon = b':'

-- `ParseInt`, which drops the error
unfoldable pub parse_int : String → ℤ
unfolding atoi_value
parse_int s = atoi_value s

-- `GenerateVersion`: the clock and its format
unfoldable pub generate_version : {T : Type 0} → (String → T → String) → T → String
generate_version format now = format "20060102-150405" now

-- `Contains`
unfoldable pub contains_item : List String → String → Bool
contains_item [] item = false
contains_item (s ∷ slice) item = s == item || contains_item slice item

-- `StripTag`: the test on `len(split)` is the pattern.
abbrev first_part : String → List String → String
first_part tag (part ∷ _ ∷ _) = part
first_part tag _ = tag

unfoldable pub strip_tag : String → String
unfolding split
strip_tag tag = first_part tag (split colon tag)

-- `ExpandTildeLocal`. `$HOME` and `filepath.Abs`, which reads the working directory, are given.
unfoldable pub expand_tilde_local : String → (String → Result String) → String → Result String
unfolding has_prefix replace_first
expand_tilde_local home abs path =
    abs (if has_prefix path "~/" then replace_first path "~" home else path)
