-- ===== src/Common/Text.antt =====
-- What the program uses of Go's package `strings`, over the characters of a text.
pub mod Laws
use Prim.Native.Nat.{ℕ}
use Prim.Native.Char.{Char, code}
use Prim.Native.String.{String, [], ◌∷◌, ◌++◌ as ◌<>◌}
use mathlib.Core.Path.{◌≡◌, refl}
use mathlib.Core.Bool.{Bool, true, false, ◌&&◌, ◌||◌}
use mathlib.Core.List.{List, [], ◌∷◌}
use text.Mathlib.Text.{◌==◌}
use uberbase.Common.Tests.{nat_eq, leb, if◌then◌else◌}

abbrev pub same_char : Char → Char → Bool
same_char c d = nat_eq (code c) (code d)

-- strings.HasPrefix
unfoldable pub has_prefix : String → String → Bool
has_prefix s [] = true
has_prefix [] (d ∷ p) = false
has_prefix (c ∷ s) (d ∷ p) = same_char c d && has_prefix s p

-- strings.HasSuffix
unfoldable pub has_suffix : String → String → Bool
has_suffix [] t = t == []
has_suffix (c ∷ s) t = t == c ∷ s || has_suffix s t

-- strings.Contains
unfoldable pub contains : String → String → Bool
unfolding has_prefix
contains [] t = has_prefix [] t
contains (c ∷ s) t = has_prefix (c ∷ s) t || contains s t

drop_prefix : String → String → String
drop_prefix s [] = s
drop_prefix [] (d ∷ p) = []
drop_prefix (c ∷ s) (d ∷ p) = drop_prefix s p

-- strings.TrimPrefix
unfoldable pub trim_prefix : String → String → String
unfolding has_prefix drop_prefix
trim_prefix s p = if has_prefix s p then drop_prefix s p else s

-- strings.Replace with a count of 1
unfoldable pub replace_first : String → String → String → String
unfolding has_prefix drop_prefix
replace_first [] old new = if has_prefix [] old then new <> [] else []
replace_first (c ∷ s) old new =
    let rest = replace_first s old new in
    if has_prefix (c ∷ s) old then new <> drop_prefix (c ∷ s) old else c ∷ rest

add_char : Char → List String → List String
add_char c [] = (c ∷ []) ∷ []
add_char c (w ∷ ws) = (c ∷ w) ∷ ws

-- strings.Split at a separator of one character, given by its code
unfoldable pub split : ℕ → String → List String
unfolding add_char
split sep [] = [] ∷ []
split sep (c ∷ s) =
    let rest = split sep s in if nat_eq (code c) sep then [] ∷ rest else add_char c rest

-- strings.Join
unfoldable pub join : List String → String → String
join [] sep = []
join (s ∷ []) sep = s
join (s ∷ ss) sep = s <> (sep <> join ss sep)

-- The white space of ASCII.
abbrev is_space : Char → Bool
is_space c = nat_eq (code c) 32 || (leb 9 (code c) && leb (code c) 13)

trim_left : String → String
trim_left [] = []
trim_left (c ∷ s) = let rest = trim_left s in if is_space c then rest else c ∷ s

trim_right : String → String
trim_right [] = []
trim_right (c ∷ s) = let rest = trim_right s in if is_space c && rest == [] then [] else c ∷ rest

-- strings.TrimSpace, on ASCII
unfoldable pub trim_space : String → String
unfolding trim_left trim_right
trim_space s = trim_right (trim_left s)

-- No character of the text has this code.
abbrev pub Lacks : ℕ → String → Type 0
Lacks sep [] = Unit
Lacks sep (c ∷ s) = (nat_eq (code c) sep ≡ false) × Lacks sep s
