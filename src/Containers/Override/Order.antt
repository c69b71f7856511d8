-- ===== src/Containers/Override/Order.antt =====
-- The override does not depend on the order in which the loop meets the services of the project,
-- which Go leaves open.
use mathlib.Core.Path.{subst}
use mathlib.Core.List.{Perm, Permᴰ}
use mathlib.Core.Logic.{∥∥₁_elim}
use mathlib.Core.Option
use uberbase.Common.{
  not, ◌&&◌, String, ◌==◌, eq_iff, ◌≡◌, refl, sym, ap, ◌∙◌, true, none, some, List, ◌∷◌,
  if◌then◌else◌, arith,
}
use uberbase.Common.Text.Laws.{String-set}
use uberbase.Common.Dict.{lookup}
use uberbase.Containers.{Service}
use uberbase.Containers.Override.{new_compose_override}
use uberbase.Containers.Override.Laws.{
  entry_for, find_built, absent, HasDistinctNames, lookup-new_compose_override,
}

absent-swap :
    (k : String) (a b : Service) (l : List Service) → absent k (a ∷ b ∷ l) ≡ absent k (b ∷ a ∷ l)
absent-swap k a b l = ground arith

absent-Permᴰ : (k : String) {xs ys : List Service} → Permᴰ xs ys → absent k xs ≡ absent k ys
absent-Permᴰ k Permᴰ.nil = refl
absent-Permᴰ k (Permᴰ.cons {b = b} {l₁ = l₁} e p) =
    ap (λ s. absent k (s ∷ l₁)) e ∙ ap (λ h. not (b.name == k) && h) (absent-Permᴰ k p)
absent-Permᴰ k (Permᴰ.swap {b = b} {a' = a'} {b' = b'} {l = l} e f) =
    ap (λ s. absent k (s ∷ b ∷ l)) e ∙ ap (λ s. absent k (b' ∷ s ∷ l)) f ∙ absent-swap k b' a' l
absent-Permᴰ k (Permᴰ.trans p q) = absent-Permᴰ k p ∙ absent-Permᴰ k q

find_built-swap :
    (k : String) (a b : Service) (l : List Service)
    → absent a.name (b ∷ l) ≡ true
    → find_built k (a ∷ b ∷ l) ≡ find_built k (b ∷ a ∷ l)
unfolding find_built
find_built-swap k a b l h = ground (arith, eq_iff a.name k, eq_iff b.name k, eq_iff b.name a.name)

-- what a search makes of a service before it looks at the rest
find_built-cons :
    (k : String) (b : Service) (xs ys : List Service)
    → find_built k xs ≡ find_built k ys
    → find_built k (b ∷ xs) ≡ find_built k (b ∷ ys)
unfolding find_built
find_built-cons k b xs ys h =
    ap (λ rest. if b.name == k then (elim b.build [ none ↦ none | some c ↦ some b ]) else rest) h

HasDistinctNames-swap :
    (a b : Service) (l : List Service) → HasDistinctNames (a ∷ b ∷ l) → HasDistinctNames (b ∷ a ∷ l)
HasDistinctNames-swap a b l (h, (k, hs)) =
    (ground (arith, eq_iff a.name b.name, eq_iff b.name a.name), (ground arith, hs))

find_built-Permᴰ :
    (k : String) {xs ys : List Service}
    → Permᴰ xs ys
    → HasDistinctNames xs
    → (find_built k xs ≡ find_built k ys) × HasDistinctNames ys
find_built-Permᴰ k Permᴰ.nil h = (refl, tt)
find_built-Permᴰ k (Permᴰ.cons {b = b} {l₁ = l₁} {l₂ = l₂} e p) h =
    let (alone, rest) = subst (λ s. HasDistinctNames (s ∷ l₁)) e h in
    let (same, distinct) = find_built-Permᴰ k p rest in
    (
      ap (λ s. find_built k (s ∷ l₁)) e ∙ find_built-cons k b l₁ l₂ same,
      (sym (absent-Permᴰ b.name p) ∙ alone, distinct),
    )
find_built-Permᴰ k (Permᴰ.swap {a = a} {b = b} {a' = a'} {b' = b'} {l = l} e f) h =
    let h' =
      subst (λ s. HasDistinctNames (b' ∷ s ∷ l)) f
        (subst (λ s. HasDistinctNames (s ∷ b ∷ l)) e h) in
    (
      ap (λ s. find_built k (s ∷ b ∷ l)) e
          ∙ ap (λ s. find_built k (b' ∷ s ∷ l)) f
          ∙ find_built-swap k b' a' l h'.0,
      HasDistinctNames-swap b' a' l h',
    )
find_built-Permᴰ k (Permᴰ.trans p q) h =
    let (same, distinct) = find_built-Permᴰ k p h in
    let (same', distinct') = find_built-Permᴰ k q distinct in (same ∙ same', distinct')

-- Whatever the order in which the services are met, the override has the same entries.
pub new_compose_override-order :
    (tag k : String) (xs ys : List Service)
    → Perm xs ys
    → HasDistinctNames xs
    → lookup k (new_compose_override xs tag) ≡ lookup k (new_compose_override ys tag)
new_compose_override-order tag k xs ys p h = ∥∥₁_elim p (hlevel (String-set)) λ d.
    let (same, distinct) = find_built-Permᴰ k d h in
    lookup-new_compose_override tag k xs h
    ∙ ap (λ found. Option.map (entry_for tag) found) same
    ∙ sym (lookup-new_compose_override tag k ys distinct)
