-- ===== src/Common/Effect/Laws.antt =====
-- Rules for actions: what holds after a part carries over to the whole.
use Prim.Native.String.{String}
use mathlib.Core.Path.{◌≡◌, refl, ap, subst}
use uberbase.Common.Tests.{if◌then◌else◌}
use mathlib.Core.Bool.{Bool, true, false}
use mathlib.Core.Logic.{◌≢◌}
use uberbase.Common.Effect.{
  Panic, Result, ok, err, panicked, Io, add_context, wrap, resume, either, ◌>>=◌,
}

module _ {W A B : Type 0} (P : Result B × W → Type 0) where
  resume_rule :
      (r : Result A) (w : W) (f : A → Io W B) (g : String → Io W B)
      → ((a : A) → r ≡ ok a → P (f a w))
      → ((e : String) → r ≡ err e → P (g e w))
      → ((e : Panic) → r ≡ panicked e → P (panicked e, w))
      → P (resume r f g w)
  resume_rule (ok a) w f g p q s = p a refl
  resume_rule (err e) w f g p q s = q e refl
  resume_rule (panicked e) w f g p q s = s e refl

  -- After `either` what holds is what holds after each of the three ways on.
  pub either_rule :
      (m : Io W A) (f : A → Io W B) (g : String → Io W B) (w : W)
      → ((a : A) → (m w).0 ≡ ok a → P (f a (m w).1))
      → ((e : String) → (m w).0 ≡ err e → P (g e (m w).1))
      → ((e : Panic) → (m w).0 ≡ panicked e → P (panicked e, (m w).1))
      → P (either m f g w)
  either_rule m f g w = resume_rule (m w).0 (m w).1 f g

module _ {W A B : Type 0} where
  resume-eq-ok :
      (r : Result A) (w : W) (f : A → Io W B) (g : String → Io W B) {b : B}
      → ((e : String) (w : W) → (g e w).0 ≢ ok b)
      → (resume r f g w).0 ≡ ok b
      → (a : A) × (r ≡ ok a) × ((f a w).0 ≡ ok b)
  resume-eq-ok (ok a) w f g n h = (a, refl, h)
  resume-eq-ok (err e) w f g n h = absurd (n e w h)
  resume-eq-ok (panicked e) w f g n h = cc

  -- A sequence succeeds only if its first part does.
  pub bind-eq-ok :
      (m : Io W A) (f : A → Io W B) (w : W) {b : B}
      → ((m >>= f) w).0 ≡ ok b
      → (a : A) × ((m w).0 ≡ ok a) × ((f a (m w).1).0 ≡ ok b)
  bind-eq-ok m f w = resume-eq-ok (m w).0 (m w).1 f _ (λ e w h. cc)

  resume-cong :
      (r : Result A) (w : W) (f g : A → Io W B) (h : String → Io W B)
      → ((a : A) (v : W) → f a v ≡ g a v)
      → resume r f h w ≡ resume r g h w
  resume-cong (ok a) w f g h e = e a w
  resume-cong (err m) w f g h e = refl
  resume-cong (panicked m) w f g h e = refl

  -- Sequences with the same first part that go on alike are alike.
  pub bind-cong :
      (m : Io W A) (f g : A → Io W B) (w : W)
      → ((a : A) (v : W) → f a v ≡ g a v)
      → (m >>= f) w ≡ (m >>= g) w
  bind-cong m f g w = resume-cong (m w).0 (m w).1 f g _

  -- After a first part that succeeds the sequence is what follows it.
  pub bind-run :
      (m : Io W A) (f : A → Io W B) (w : W) {a : A} → (m w).0 ≡ ok a → (m >>= f) w ≡ f a (m w).1
  bind-run m f w h = ap (λ r. resume r f (λ e v. (err e, v)) (m w).1) h

pub add_context-eq-ok :
    {A : Type 0} (text : String) (r : Result A) {a : A} → add_context text r ≡ ok a → r ≡ ok a
add_context-eq-ok text (ok a) h = h
add_context-eq-ok text (err e) h = cc
add_context-eq-ok text (panicked e) h = cc

module _ {W A : Type 0} where
  pub wrap-eq-ok :
      (text : String) (m : Io W A) (w : W) {a : A} → (wrap text m w).0 ≡ ok a → (m w).0 ≡ ok a
  wrap-eq-ok text m w = add_context-eq-ok text (m w).0

-- What an action returns, if it returns without an error, has the property.
abbrev pub Yields : {A : Type 0} → (A → Type 0) → Result A → Type 0
Yields {A} P r = (a : A) → r ≡ ok a → P a

module _ {B : Type 0} (P : B → Type 0) where
  pub Yields-err : (e : String) → Yields P (err e)
  Yields-err e b h = cc

  pub Yields-ok : (b : B) → P b → Yields P (ok b)
  Yields-ok b p c h = subst P (cc) p

module _ {W B : Type 0} (P : B → Type 0) where
  pub Yields-if :
      (t : Bool) (x y : Io W B) (w : W)
      → (t ≡ true → Yields P (x w).0)
      → (t ≡ false → Yields P (y w).0)
      → Yields P ((if t then x else y) w).0
  Yields-if true x y w h k = h refl
  Yields-if false x y w h k = k refl

  pub Yields-either :
      {A : Type 0} (m : Io W A) (f : A → Io W B) (g : String → Io W B) (w : W)
      → ((a : A) → (m w).0 ≡ ok a → Yields P (f a (m w).1).0)
      → ((e : String) → Yields P (g e (m w).1).0)
      → Yields P (either m f g w).0
  Yields-either m f g w p q = either_rule (λ r. Yields P r.0) m f g w p (λ e _. q e) (λ e _ b h. cc)
