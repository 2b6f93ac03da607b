-- ===== src/Prelude/Sort.antt =====
-- Python's stable `sorted(..., reverse=True)` over a strict order of keys: of equal keys the one
-- that stands first stays first.
use mathlib.Core.Path.{◌≡◌}
use mathlib.Core.Bool.{Bool, true, false}
use mathlib.Core.List.{List, [], ◌∷◌, Perm}
use mathlib.Core.List.Perm
use wander_mind.Prelude.Tests.{if◌then◌else◌, Bool-cases}
use mathlib.Core.Logic.{inl, inr}
use native.Mathlib.Omega.{arith}

module _ {A : Type 0} (lt : A → A → Bool) where
  unfoldable pub insert_desc : A → List A → List A
  insert_desc x [] = x ∷ []
  insert_desc x (y ∷ ys) = let rest = insert_desc x ys in if lt x y then y ∷ rest else x ∷ y ∷ ys

  unfoldable pub sort_desc : List A → List A
  unfolding insert_desc
  sort_desc [] = []
  sort_desc (x ∷ xs) = insert_desc x (sort_desc xs)

  insert_desc-perm : (x : A) (ys : List A) → Perm (insert_desc x ys) (x ∷ ys)
  unfolding insert_desc
  insert_desc-perm x [] = Perm.refl (x ∷ [])
  insert_desc-perm x (y ∷ ys) = elim (Bool-cases (lt x y)) [
    | inl e ↦ rw e (Perm.trans (Perm.cons y (insert_desc-perm x ys)) (Perm.swap x y ys))
    | inr e ↦ rw e (Perm.refl (x ∷ y ∷ ys))
  ]

  pub sort_desc-perm : (xs : List A) → Perm (sort_desc xs) xs
  unfolding sort_desc
  sort_desc-perm [] = Perm.refl []
  sort_desc-perm (x ∷ xs) =
      Perm.trans (insert_desc-perm x (sort_desc xs)) (Perm.cons x (sort_desc-perm xs))

  -- Neighbours are in order: no element is below the one that follows it.
  abbrev pub IsDescending : List A → Type 0
  IsDescending [] = Unit
  IsDescending (x ∷ []) = Unit
  IsDescending (x ∷ y ∷ ys) = (lt x y ≡ false) × IsDescending (y ∷ ys)

  insert_desc-IsDescending :
      ((a b : A) → lt a b ≡ true → lt b a ≡ false)
      → (x : A) (ys : List A) → IsDescending ys
      → IsDescending (insert_desc x ys)
  unfolding insert_desc
  insert_desc-IsDescending asym x [] h = tt
  insert_desc-IsDescending asym x (y ∷ []) h = elim (Bool-cases (lt x y)) [
    | inl e ↦ rw e (asym x y e, tt)
    | inr e ↦ rw e (e, tt)
  ]
  insert_desc-IsDescending asym x (y ∷ z ∷ zs) h =
      ground (arith, asym x y, asym x z, insert_desc-IsDescending asym x (z ∷ zs))

  pub sort_desc-IsDescending :
      ((a b : A) → lt a b ≡ true → lt b a ≡ false) → (xs : List A) → IsDescending (sort_desc xs)
  unfolding sort_desc
  sort_desc-IsDescending asym [] = tt
  sort_desc-IsDescending asym (x ∷ xs) =
      insert_desc-IsDescending asym x (sort_desc xs) (sort_desc-IsDescending asym xs)
