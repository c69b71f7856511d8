-- ===== src/Common/Effect.antt =====
-- Go functions that act on the outside world and may fail. `err` is a non-nil error with its text,
-- `panicked` a run-time panic. What was done before a failure stays done, so the world that the
-- actions have reached comes back beside either.
pub mod Laws
pub mod Steady
use Prim.Native.String.{String, ◌++◌ as ◌<>◌}
use mathlib.Core.Bool.{Bool, true, false}

-- A run-time panic with its text: of the goroutine that calls, which may recover from it, or of one
-- that it has started, which ends the process.
pub data Panic : Type 0 where
  here : String → Panic
  elsewhere : String → Panic

pub data Result {ℓ} (A : Type ℓ) : Type ℓ where
  ok : A → Result A
  err : String → Result A
  panicked : Panic → Result A

-- what Go says of a nil pointer that is dereferenced
abbrev pub nil_dereference : String
nil_dereference = "runtime error: invalid memory address or nil pointer dereference"

abbrev pub Io : Type 0 → Type 0 → Type 0
Io W A = W → Result A × W

module _ {A : Type 0} where
  abbrev pub add_context : String → Result A → Result A
  add_context text (ok a) = ok a
  add_context text (err e) = err (text <> e)
  add_context text (panicked e) = panicked e

  abbrev pub succeeded : Result A → Result Bool
  succeeded (ok a) = ok true
  succeeded (err e) = ok false
  succeeded (panicked e) = panicked e

module _ {W A : Type 0} where
  abbrev pub pure : A → Io W A
  pure a w = (ok a, w)

  -- return fmt.Errorf(…)
  abbrev pub fail : String → Io W A
  fail e w = (err e, w)

  -- a nil dereference and the like
  abbrev pub crash : String → Io W A
  crash e w = (panicked (here e), w)

  -- fmt.Errorf("text%w", err) where the call fails
  abbrev pub wrap : String → Io W A → Io W A
  wrap text m w = let (r, w') = m w in (add_context text r, w')

  -- `_, err := m; err == nil`
  abbrev pub succeeds : Io W A → Io W Bool
  succeeds m w = let (r, w') = m w in (succeeded r, w')

module _ {W A B : Type 0} where
  abbrev pub resume : Result A → (A → Io W B) → (String → Io W B) → Io W B
  resume (ok a) f g w = f a w
  resume (err e) f g w = g e w
  resume (panicked e) f g w = (panicked e, w)

  -- `a, err := m`, then one of two ways on
  abbrev pub either : Io W A → (A → Io W B) → (String → Io W B) → Io W B
  either m f g w = let (r, w') = m w in resume r f g w'

  infixl 5 ◌>>=◌ ◌>>◌
  -- `a, err := m; if err != nil { return err }`
  abbrev pub ◌>>=◌ : Io W A → (A → Io W B) → Io W B
  m >>= f = either m f fail

  abbrev pub ◌>>◌ : Io W A → Io W B → Io W B
  m >> n = m >>= λ _. n
