-- ===== src/Common/Results.antt =====
-- Go functions that may fail and act on nothing.
use mathlib.Core.Path.{◌≡◌, refl}
use uberbase.Common.Effect.{Result, ok, err, panicked}

module _ {A B : Type 0} where
  infixl 5 ◌>>=◌ ◌>>◌
  -- `a, err := r; if err != nil { return err }`
  abbrev pub ◌>>=◌ : Result A → (A → Result B) → Result B
  ok a >>= f = f a
  err e >>= f = err e
  panicked e >>= f = panicked e

  abbrev pub ◌>>◌ : Result A → Result B → Result B
  r >> s = r >>= λ _. s

  -- A sequence succeeds only if each part does.
  pub Result-bind-ok :
      (r : Result A) (f : A → Result B) {b : B}
      → (r >>= f) ≡ ok b
      → (a : A) × (r ≡ ok a) × (f a ≡ ok b)
  Result-bind-ok (ok a) f h = (a, refl, h)
  Result-bind-ok (err e) f h = cc
  Result-bind-ok (panicked e) f h = cc

pub ok_inj : {A : Type 0} {a b : A} → ok a ≡ ok b → a ≡ b
ok_inj h = cc h
