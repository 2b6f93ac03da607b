-- ===== src/Repositories/Store/Pages.antt =====
-- `list` reads a store in pages.
use wander_mind.Prelude.{
  ℕ, zero, suc, ◌+◌, ◌≤◌, ◌≡◌, refl, sym, ◌∙◌, ap, List, [], ◌∷◌, ◌++◌, length, take, drop, arith,
}
use native.Mathlib.Nat.{zero-add, suc-add}
use wander_mind.Repositories.Store.{list}

module _ {A : Type 0} where
  take-all : (n : ℕ) (xs : List A) → length xs ≤ n → take n xs ≡ xs
  take-all zero [] h = refl
  take-all (suc n) [] h = refl
  take-all zero (x ∷ xs) h = absurd (omega arith)
  take-all (suc n) (x ∷ xs) h = ap (λ (ys : List A). x ∷ ys) (take-all n xs (omega arith))

  -- A limit that the store does not exceed leaves nothing out.
  pub list-all : (limit : ℕ) (xs : List A) → length xs ≤ limit → list 0 limit xs ≡ xs
  unfolding list
  list-all limit xs h = take-all limit xs h

  take-nil : (n : ℕ) → take {A = A} n [] ≡ []
  take-nil zero = refl
  take-nil (suc n) = refl

  take-add : (m n : ℕ) (xs : List A) → take m xs ++ take n (drop m xs) ≡ take (m + n) xs
  take-add zero n xs = rw zero-add
  take-add (suc m) n [] = take-nil n ∙ sym (take-nil (suc m + n))
  take-add (suc m) n (x ∷ xs) = rw suc-add (ap (λ (ys : List A). x ∷ ys) (take-add m n xs))

  drop-nil : (n : ℕ) → drop {A = A} n [] ≡ []
  drop-nil zero = refl
  drop-nil (suc n) = refl

  drop-add : (m n : ℕ) (xs : List A) → drop (m + n) xs ≡ drop n (drop m xs)
  drop-add zero n xs = rw zero-add
  drop-add (suc m) n [] = drop-nil (suc m + n) ∙ sym (drop-nil n)
  drop-add (suc m) n (x ∷ xs) = rw suc-add (drop-add m n xs)

  -- Two pages that meet are one page.
  pub list-append :
      (offset m n : ℕ) (xs : List A)
      → list offset m xs ++ list (offset + m) n xs ≡ list offset (m + n) xs
  unfolding list
  list-append offset m n xs = rw (drop-add offset m xs) (take-add m n (drop offset xs))
