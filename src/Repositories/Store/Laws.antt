-- ===== src/Repositories/Store/Laws.antt =====
-- What `get` says after each operation, and that no key comes to stand twice.
use wander_mind.Prelude.{
  ℕ, ◌≡◌, ◌≢◌, sym, ap, ◌∙◌, inl, inr, refl, none, some, List, [], ◌∷◌, ◌++◌, is_some, arith,
  Bool-cases, ◌==◌, if◌then◌else◌, ==_iff,
}
use mathlib.Core.Path.{subst}
use mathlib.Core.Option.{some-injective}
use wander_mind.Repositories.Store.{Entity, get, replaced, removed}

module _ {A : Type 0} ⦃e : Entity A⦄ where
  -- No other value has the key.
  abbrev pub IsFresh : ℕ → List A → Type 0
  IsFresh item_id [] = Unit
  IsFresh item_id (x ∷ xs) = (e.id x ≢ item_id) × IsFresh item_id xs

  abbrev pub IsKeyed : List A → Type 0
  IsKeyed [] = Unit
  IsKeyed (x ∷ xs) = IsFresh (e.id x) xs × IsKeyed xs

  -- The entry of an id has that id.
  pub get-id : (k : ℕ) (xs : List A) (x : A) → get k xs ≡ some x → e.id x ≡ k
  unfolding get
  get-id k [] x h = ground (arith, h)
  get-id k (y ∷ ys) x h = elim (Bool-cases (e.id y == k)) [
    | inl same ↦ sym (ap e.id (some-injective _ _ (rw same at h))) ∙ (==_iff (e.id y) k).0 same
    | inr other ↦ get-id k ys x (rw other at h)
  ]

  pub get-append :
      (item_id : ℕ) (xs : List A) (item : A)
      → get (e.id item) xs ≡ none
      → get item_id (xs ++ item ∷ []) ≡ (if e.id item == item_id then some item else get item_id xs)
  unfolding get
  get-append item_id [] item h = refl
  get-append item_id (x ∷ xs) item h = ground (arith, get-append item_id xs item)

  pub get-replaced :
      (item_id : ℕ) (item : A) (xs : List A)
      → get item_id (replaced item xs) ≡ (
          if e.id item == item_id
          then (if is_some (get item_id xs) then some item else none)
          else get item_id xs)
  unfolding get replaced
  get-replaced item_id item [] = ground arith
  get-replaced item_id item (x ∷ xs) = ground (arith, get-replaced item_id item xs)

  pub get-removed :
      (item_id : ℕ) (key : ℕ) (xs : List A)
      → get item_id (removed key xs) ≡ (if key == item_id then none else get item_id xs)
  unfolding get removed
  get-removed item_id key [] = ground arith
  get-removed item_id key (x ∷ xs) = ground (arith, get-removed item_id key xs)

  IsFresh-append :
      (item_id : ℕ) (xs : List A) (item : A)
      → e.id item ≢ item_id
      → IsFresh item_id xs
      → IsFresh item_id (xs ++ item ∷ [])
  IsFresh-append item_id [] item h k = (h, tt)
  IsFresh-append item_id (x ∷ xs) item h k = (k.0, IsFresh-append item_id xs item h k.1)

  pub IsKeyed-append :
      (xs : List A) (item : A) → get (e.id item) xs ≡ none → IsKeyed xs → IsKeyed (xs ++ item ∷ [])
  unfolding get
  IsKeyed-append [] item h k = (tt, tt)
  IsKeyed-append (x ∷ xs) item h k = elim (Bool-cases (e.id x == e.id item)) [
    | inl same ↦ absurd (some-ne-none x (rw same at h))
    | inr other ↦ (
      IsFresh-append (e.id x) xs item (λ eq. ground (arith, other, eq)) k.0,
      IsKeyed-append xs item (rw other at h) k.1,
    )
  ]
    where
      some-ne-none : (a : A) → some a ≡ none → ⊥
      some-ne-none a h = cc

  IsFresh-replaced :
      (item_id : ℕ) (item : A) (xs : List A)
      → IsFresh item_id xs
      → IsFresh item_id (replaced item xs)
  unfolding replaced
  IsFresh-replaced item_id item [] h = tt
  IsFresh-replaced item_id item (x ∷ xs) h =
      (λ eq. ground (arith, h.0, eq), IsFresh-replaced item_id item xs h.1)

  pub IsKeyed-replaced : (item : A) (xs : List A) → IsKeyed xs → IsKeyed (replaced item xs)
  unfolding replaced
  IsKeyed-replaced item [] h = tt
  IsKeyed-replaced item (x ∷ xs) h = elim (Bool-cases (e.id x == e.id item)) [
    | inl same ↦ rw same (
      subst (λ k. IsFresh k (replaced item xs)) ((==_iff (e.id x) (e.id item)).0 same)
          (IsFresh-replaced (e.id x) item xs h.0),
      IsKeyed-replaced item xs h.1,
    )
    | inr other ↦ rw other (IsFresh-replaced (e.id x) item xs h.0, IsKeyed-replaced item xs h.1)
  ]

  IsFresh-removed :
      (item_id key : ℕ) (xs : List A) → IsFresh item_id xs → IsFresh item_id (removed key xs)
  unfolding removed
  IsFresh-removed item_id key [] h = tt
  IsFresh-removed item_id key (x ∷ xs) h = elim (Bool-cases (e.id x == key)) [
    | inl same ↦ rw same (IsFresh-removed item_id key xs h.1)
    | inr other ↦ rw other (h.0, IsFresh-removed item_id key xs h.1)
  ]

  pub IsKeyed-removed : (key : ℕ) (xs : List A) → IsKeyed xs → IsKeyed (removed key xs)
  unfolding removed
  IsKeyed-removed key [] h = tt
  IsKeyed-removed key (x ∷ xs) h = elim (Bool-cases (e.id x == key)) [
    | inl same ↦ rw same (IsKeyed-removed key xs h.1)
    | inr other ↦ rw other (IsFresh-removed (e.id x) key xs h.0, IsKeyed-removed key xs h.1)
  ]
