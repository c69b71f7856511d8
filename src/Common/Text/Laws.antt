-- ===== src/Common/Text/Laws.antt =====
-- Laws of the text functions that the program's naming schemes rest on.
use Prim.Native.Nat.{ℕ}
use Prim.Native.Char.{Char, code}
use Prim.Native.String.{String, [], ◌∷◌, ◌++◌ as ◌<>◌}
use mathlib.Core.Path.{◌≡◌, refl, ap, ◌∙◌}
use mathlib.Core.Bool.{true, false}
use mathlib.Core.Logic.{inl, inr}
use uberbase.Common.Tests.{Bool-cases}
use mathlib.Core.List.{List, [], ◌∷◌}
use native.Mathlib.Omega.{arith}
use text.Mathlib.TextPositions.{eq_refl}
use text.Mathlib.Text.{◌==◌}
use text.Mathlib.TextEquality.{eq_iff}
use mathlib.Core.HLevel.{hedberg}
use text.Mathlib.TextLemmas.{nil-append, cons-append}
use uberbase.Common.Tests.{nat_eq}
use uberbase.Common.Text.{
  add_char, Lacks, same_char, has_prefix, has_suffix, drop_prefix, trim_prefix, split,
}

pub singleton-append : (c : Char) (s : String) → (c ∷ []) <> s ≡ c ∷ s
singleton-append c s = cons-append c [] s ∙ ap (λ t. c ∷ t) (nil-append s)

pub split_of_Lacks : (sep : ℕ) (s : String) → Lacks sep s → split sep s ≡ s ∷ []
unfolding split
split_of_Lacks sep [] h = refl
split_of_Lacks sep (c ∷ s) (h, k) = rw (h, split_of_Lacks sep s k)

pub split-append :
    (sep : ℕ) (a b : String) (c : Char)
    → Lacks sep a
    → nat_eq (code c) sep ≡ true
    → split sep (a <> (c ∷ b)) ≡ a ∷ split sep b
unfolding split
split-append sep [] b c h e = rw (nil-append, e)
split-append sep (d ∷ a) b c (h, k) e = rw (cons-append, h, split-append sep a b c k e)

same_char_refl : (c : Char) → same_char c c ≡ true
same_char_refl c = ground arith

pub has_prefix-append : (p s : String) → has_prefix (p <> s) p ≡ true
unfolding has_prefix
has_prefix-append [] s = refl
has_prefix-append (c ∷ p) s = rw (cons-append, same_char_refl c, has_prefix-append p s)

drop_prefix-append : (p s : String) → drop_prefix (p <> s) p ≡ s
unfolding drop_prefix
drop_prefix-append [] s = nil-append s
drop_prefix-append (c ∷ p) s = rw (cons-append, drop_prefix-append p s)

pub trim_prefix-append : (p s : String) → trim_prefix (p <> s) p ≡ s
unfolding trim_prefix
trim_prefix-append p s = rw (has_prefix-append p s) (drop_prefix-append p s)

pub trim_prefix_of_absent : (s p : String) → has_prefix s p ≡ false → trim_prefix s p ≡ s
unfolding trim_prefix
trim_prefix_of_absent s p h = rw h

pub has_suffix-append : (s t : String) → has_suffix (s <> t) t ≡ true
unfolding has_suffix
has_suffix-append [] [] = refl
has_suffix-append [] (c ∷ t) = rw (nil-append, eq_refl)
has_suffix-append (c ∷ s) t = rw (cons-append, has_suffix-append s t) (ground arith)

pub Lacks-append : (sep : ℕ) (s t : String) → Lacks sep s → Lacks sep t → Lacks sep (s <> t)
Lacks-append sep [] t _ k = rw nil-append k
Lacks-append sep (c ∷ s) t (h, hs) k = rw cons-append (h, Lacks-append sep s t hs k)

add_char-cons :
    (c : Char) (ws : List String)
    → (first : String) × (rest : List String) × (add_char c ws ≡ first ∷ rest)
unfolding add_char
add_char-cons c [] = (_, _, refl)
add_char-cons c (w ∷ ws) = (_, _, refl)

-- A text has a first part.
pub split-cons :
    (sep : ℕ) (s : String) → (first : String) × (rest : List String) × (split sep s ≡ first ∷ rest)
unfolding split
split-cons sep [] = (_, _, refl)
split-cons sep (c ∷ s) = elim (Bool-cases (nat_eq (code c) sep)) [
  | inl e ↦ ([], split sep s, rw e refl)
  | inr e ↦ let (first, rest, cons) = add_char-cons c (split sep s) in (first, rest, rw e cons)
]

String-discrete : Discrete String
String-discrete s t = elim (Bool-cases (s == t)) [
  | inl e ↦ yes ((eq_iff s t).0 e)
  | inr e ↦ no (λ p. cc (e, (eq_iff s t).1 p))
]

pub String-set : IsSet String
String-set = hedberg String-discrete
