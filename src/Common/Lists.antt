-- ===== src/Common/Lists.antt =====
-- Lengths and predicates of lists.
use Prim.Native.Nat.{suc, ◌+◌}
use mathlib.Core.Path.{◌≡◌, ap}
use mathlib.Core.List.{Mem, mem-cons_self, mem-cons_of_mem, List, [], ◌∷◌, ◌++◌}
use native.Mathlib.Omega.{arith}
use uberbase.Common.Tests.{length, All}

module _ {ℓ} {A : Type ℓ} where
  pub length-append : (xs ys : List A) → length (xs ++ ys) ≡ length xs + length ys
  length-append [] ys = omega arith
  length-append (x ∷ xs) ys = omega (arith, length-append xs ys)

  -- The length of a list that is another with one more element somewhere.
  pub length-middle :
      (before : List A) (x : A) (after xs : List A)
      → xs ≡ before ++ (x ∷ after)
      → length xs ≡ suc (length (before ++ after))
  length-middle before x after xs e =
      omega (arith, ap length e, length-append before (x ∷ after), length-append before after)

  -- What holds of the rest and of one element holds with the element put back among the rest.
  pub All-middle {κ} :
      (P : A → Type κ) (before : List A) (x : A) (after : List A)
      → P x
      → All P (before ++ after)
      → All P (before ++ (x ∷ after))
  All-middle P [] x after h k = (h, k)
  All-middle P (y ∷ before) x after h (k, l) = (k, All-middle P before x after h l)

  pub All-remove {κ} :
      (P : A → Type κ) (before : List A) (x : A) (after : List A)
      → All P (before ++ (x ∷ after))
      → P x × All P (before ++ after)
  All-remove P [] x after h = h
  All-remove P (y ∷ before) x after (k, l) =
      let (h, rest) = All-remove P before x after l in (h, (k, rest))

  pub All-Mem : (xs ys : List A) → ((x : A) → Mem x xs → Mem x ys) → All (λ x. Mem x ys) xs
  All-Mem [] ys h = tt
  All-Mem (x ∷ xs) ys h = (h x mem-cons_self, All-Mem xs ys (λ y m. h y (mem-cons_of_mem x m)))
