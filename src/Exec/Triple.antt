-- ===== src/Exec/Triple.antt =====
-- Total correctness of an action: from `P` it returns a value with `Q`, or raises with `R`.
-- Taking `R` to be empty says that it raises nothing.
use wander_mind.Prelude.{◌≡◌, refl, Bool, true, false, if◌then◌else◌}
use wander_mind.Exec.Monad.{Result, ok, err, Exec, continue, pure, ◌>>=◌}

abbrev pub Holds : {E S A : Type 0} → (A → S → Type 0) → (E → S → Type 0) → Result E A → S → Type 0
Holds Q R (ok a) s = Q a s
Holds Q R (err e) s = R e s

pub record Triple {E S A : Type 0} (P : S → Type 0) (m : Exec E S A) (Q : A → S → Type 0)
    (R : E → S → Type 0) : Type 0 where
  pub at : (s : S) → P s → Holds Q R (m s).0 (m s).1

step_bind :
    {E S A B : Type 0} (R : E → S → Type 0) (Q : A → S → Type 0) (T : B → S → Type 0)
    (r : Result E A) (f : A → Exec E S B) (s : S)
    → Holds Q R r s
    → ((a : A) → Triple (Q a) (f a) T R)
    → Holds T R (continue r f s).0 (continue r f s).1
step_bind R Q T (ok a) f s h k = (k a).at s h
step_bind R Q T (err e) f s h k = h

module _ {E S A B : Type 0} {P : S → Type 0} {R : E → S → Type 0} where
  pub Triple-bind :
      (Q : A → S → Type 0) (T : B → S → Type 0) (m : Exec E S A) (f : A → Exec E S B)
      → Triple P m Q R
      → ((a : A) → Triple (Q a) (f a) T R)
      → Triple P (m >>= f) T R
  unfolding ◌>>=◌
  Triple-bind Q T m f h k = record {
    at = λ s p. let (r, s') = m s in step_bind R Q T r f s' (h.at s p) k;
  }

weaker :
    {E S A : Type 0} (R : E → S → Type 0) (Q T : A → S → Type 0) (r : Result E A) (s : S)
    → ((a : A) (s : S) → Q a s → T a s)
    → Holds Q R r s
    → Holds T R r s
weaker R Q T (ok a) s w h = w a s h
weaker R Q T (err e) s w h = h

module _ {E S A : Type 0} {P : S → Type 0} {R : E → S → Type 0} where
  pub Triple-pure : (Q : A → S → Type 0) (a : A) → ((s : S) → P s → Q a s) → Triple P (pure a) Q R
  unfolding pure
  Triple-pure Q a h = record { at = h }

  pub Triple-if :
      (Q : A → S → Type 0) (b : Bool) (m n : Exec E S A)
      → (b ≡ true → Triple P m Q R)
      → (b ≡ false → Triple P n Q R)
      → Triple P (if b then m else n) Q R
  Triple-if Q true m n h k = h refl
  Triple-if Q false m n h k = k refl

  -- A stronger state before.
  pub Triple-weaken :
      (P' : S → Type 0) (Q : A → S → Type 0) (m : Exec E S A)
      → ((s : S) → P s → P' s)
      → Triple P' m Q R
      → Triple P m Q R
  Triple-weaken P' Q m w h = record { at = λ s p. h.at s (w s p) }

  -- A fact beside the state that does not speak of it.
  pub Triple-given :
      (G : Type 0) (Q : A → S → Type 0) (m : Exec E S A)
      → (G → Triple P m Q R)
      → Triple (λ s. P s × G) m Q R
  Triple-given G Q m k = record { at = λ s h. (k h.1).at s h.0 }

  -- A weaker value after.
  pub Triple-post :
      (Q T : A → S → Type 0) (m : Exec E S A)
      → ((a : A) (s : S) → Q a s → T a s)
      → Triple P m Q R
      → Triple P m T R
  Triple-post Q T m w h = record { at = λ s p. weaker R Q T (m s).0 (m s).1 w (h.at s p) }
