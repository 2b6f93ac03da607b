-- ===== src/Repositories/Each/Laws.antt =====
-- What loops over a listing leave in the store.
use wander_mind.Prelude.{
  ℕ, ==_iff, Bool, true, false, Option, none, some, List, [], ◌∷◌, ◌≡◌, refl, ◌∙◌, ap, ◌==◌,
  is_some, contains, if◌then◌else◌, Bool-cases, inl, inr, arith, length, ◌≤◌,
}
use mathlib.Core.Path.{subst}
use wander_mind.Exec.{ok, err, pure, ◌>>=◌}
use wander_mind.Repositories.Store.{Entity, key_error, get, replaced, removed, select}
use wander_mind.Repositories.Store.Laws.{
  IsFresh, IsKeyed, get-replaced, get-removed, IsKeyed-removed, IsKeyed-replaced,
}
use wander_mind.Repositories.Each.{delete_each, update_item, update_each, without, changed}

module _ {A : Type 0} ⦃e : Entity A⦄ where
  abbrev pub keys : List A → List ℕ
  keys [] = []
  keys (x ∷ xs) = e.id x ∷ keys xs

  get-delete_each :
      (item_id : ℕ) (xs store : List A)
      → get item_id (delete_each xs store)
        ≡ (if contains (keys xs) item_id then none else get item_id store)
  unfolding delete_each contains
  get-delete_each item_id [] store = refl
  get-delete_each item_id (x ∷ xs) store =
      get-delete_each item_id xs (removed (e.id x) store)
      ∙ ground (arith, get-removed item_id (e.id x) store)

  abbrev pub holds : (A → Bool) → Option A → Bool
  holds p none = false
  holds p (some x) = p x

  fresh-get : (item_id : ℕ) (xs : List A) → IsFresh item_id xs → get item_id xs ≡ none
  unfolding get
  fresh-get item_id [] h = refl
  fresh-get item_id (x ∷ xs) h = ground (arith, h.0, fresh-get item_id xs h.1)

  fresh-select :
      (p : A → Bool) (item_id : ℕ) (xs : List A)
      → IsFresh item_id xs
      → contains (keys (select p xs)) item_id ≡ false
  unfolding select contains
  fresh-select p item_id [] h = refl
  fresh-select p item_id (x ∷ xs) h = ground (arith, h.0, fresh-select p item_id xs h.1)

  pub contains-select :
      (p : A → Bool) (item_id : ℕ) (xs : List A)
      → IsKeyed xs
      → contains (keys (select p xs)) item_id ≡ holds p (get item_id xs)
  unfolding select get contains
  contains-select p item_id [] h = refl
  contains-select p item_id (x ∷ xs) h = elim (Bool-cases (e.id x == item_id)) [
    | inl same ↦
        let fresh =
          fresh-select p item_id xs
            (subst (λ k. IsFresh k xs) ((==_iff (e.id x) item_id).0 same) h.0) in
        ground (arith, same, fresh)
    | inr other ↦ ground (arith, other, contains-select p item_id xs h.1)
  ]

  -- Deleting what a query lists leaves what it does not hold of.
  pub delete_each-select :
      (p : A → Bool) (item_id : ℕ) (xs : List A)
      → IsKeyed xs
      → get item_id (delete_each (select p xs) xs) ≡ without p (get item_id xs)
  delete_each-select p item_id xs h =
      get-delete_each item_id (select p xs) xs
      ∙ rw (contains-select p item_id xs h) (split (get item_id xs))
    where
      split : (o : Option A) → (if holds p o then none else o) ≡ without p o
      split none = refl
      split (some x) = refl

  abbrev listed : (A → Bool) → (A → A) → Option A → Option A → Option A
  listed p f none kept = kept
  listed p f (some y) kept = if p y then some (f y) else kept

  -- What `update_each` does, as long as all that it lists is stored.
  record Updates (p : A → Bool) (f : A → A) (xs store : List A) : Type 0 where
    pub returns : (update_each p f xs store).0 ≡ ok tt
    pub gets_all :
        (item_id : ℕ)
        → get item_id (update_each p f xs store).1 ≡ listed p f (get item_id xs) (get item_id store)

  update_item-stored :
      (item : A) (store : List A)
      → is_some (get (e.id item) store) ≡ true
      → update_item item store ≡ (ok tt, replaced item store)
  unfolding update_item
  update_item-stored item store h = rw h

  get-cons_fresh :
      (item_id : ℕ) (x : A) (xs : List A)
      → IsFresh (e.id x) xs
      → (e.id x == item_id) ≡ true
      → get item_id xs ≡ none
  get-cons_fresh item_id x xs h same =
      fresh-get item_id xs (subst (λ k. IsFresh k xs) ((==_iff (e.id x) item_id).0 same) h)

  stored_tail :
      (item_id : ℕ) (x : A) (xs : List A)
      → is_some (get item_id xs) ≡ true
      → is_some (get item_id (x ∷ xs)) ≡ true
  unfolding get
  stored_tail item_id x xs h = ground arith

  stored_replaced :
      (item_id : ℕ) (item : A) (store : List A)
      → is_some (get item_id store) ≡ true
      → is_some (get item_id (replaced item store)) ≡ true
  stored_replaced item_id item store h = ground (arith, get-replaced item_id item store)

  stored_head : (x : A) (xs : List A) → is_some (get (e.id x) (x ∷ xs)) ≡ true
  unfolding get
  stored_head x xs = ground arith

  -- How the first listed item shows in the rest.
  listed_step :
      (p : A → Bool) (f : A → A) (item_id : ℕ) (x : A) (xs store : List A)
      → e.id (f x) ≡ e.id x
      → IsFresh (e.id x) xs
      → is_some (get (e.id x) store) ≡ true
      → listed p f (get item_id xs) (get item_id (if p x then replaced (f x) store else store))
        ≡ listed p f (get item_id (x ∷ xs)) (get item_id store)
  unfolding get
  listed_step p f item_id x xs store same fresh there = elim (Bool-cases (e.id x == item_id)) [
    | inl here ↦
        rw (get-cons_fresh item_id x xs fresh here, here)
          (ground (
            arith,
            here,
            same,
            there,
            (==_iff (e.id x) item_id).0 here,
            get-replaced item_id (f x) store,
          ))
    | inr other ↦ rw other (ground (arith, other, same, get-replaced item_id (f x) store))
  ]

  stored_next :
      (p : A → Bool) (f : A → A) (x : A) (item_id : ℕ) (store : List A)
      → is_some (get item_id store) ≡ true
      → is_some (get item_id (if p x then replaced (f x) store else store)) ≡ true
  stored_next p f x item_id store h = elim (Bool-cases (p x)) [
    | inl e' ↦ rw e' (stored_replaced item_id (f x) store h)
    | inr e' ↦ rw e' h
  ]

  update_each-cons :
      (p : A → Bool) (f : A → A) (x : A) (xs store : List A)
      → is_some (get (e.id (f x)) store) ≡ true
      → update_each p f (x ∷ xs) store
        ≡ update_each p f xs (if p x then replaced (f x) store else store)
  unfolding update_each pure ◌>>=◌
  update_each-cons p f x xs store found = elim (Bool-cases (p x)) [
    | inl e' ↦ rw (e', update_item-stored (f x) store found)
    | inr e' ↦ rw e'
  ]

  update_each-Updates :
      (p : A → Bool) (f : A → A)
      → ((x : A) → e.id (f x) ≡ e.id x)
      → (xs store : List A) → IsKeyed xs
      → ((item_id : ℕ) → is_some (get item_id xs) ≡ true → is_some (get item_id store) ≡ true)
      → Updates p f xs store
  unfolding update_each pure get
  update_each-Updates p f same_id [] store keyed there = record {
    returns = refl;
    gets_all = λ k. refl;
  }
  update_each-Updates p f same_id (x ∷ xs) store keyed there =
      let present = there (e.id x) (stored_head x xs) in
      let step = update_each-cons p f x xs store (rw (same_id x) present) in
      let ih =
        update_each-Updates p f same_id xs (if p x then replaced (f x) store else store) keyed.1
          (λ k h. stored_next p f x k store (there k (stored_tail k x xs h))) in
      record {
        returns = ap (λ r. r.0) step ∙ ih.returns;
        gets_all = λ k.
            ap (λ r. get k r.1) step
            ∙ ih.gets_all k
            ∙ listed_step p f k x xs store (same_id x) keyed.0 present;
      }

  listed_self : (p : A → Bool) (f : A → A) (o : Option A) → listed p f o o ≡ changed p f o
  listed_self p f none = refl
  listed_self p f (some x) = refl

  -- Updating what a whole listing holds changes just that, and never raises.
  pub update_each-all :
      (p : A → Bool) (f : A → A)
      → ((x : A) → e.id (f x) ≡ e.id x)
      → (xs : List A) → IsKeyed xs
      → ((update_each p f xs xs).0 ≡ ok tt)
        × ((item_id : ℕ) → get item_id (update_each p f xs xs).1 ≡ changed p f (get item_id xs))
  update_each-all p f same_id xs keyed =
      let u = update_each-Updates p f same_id xs xs keyed (λ k h. h) in
      (u.returns, λ k. u.gets_all k ∙ listed_self p f (get k xs))

  pub delete_each-IsKeyed : (xs store : List A) → IsKeyed store → IsKeyed (delete_each xs store)
  unfolding delete_each
  delete_each-IsKeyed [] store h = h
  delete_each-IsKeyed (x ∷ xs) store h =
      delete_each-IsKeyed xs (removed (e.id x) store) (IsKeyed-removed (e.id x) store h)

  length-replaced : (item : A) (store : List A) → length (replaced item store) ≡ length store
  unfolding replaced
  length-replaced item [] = refl
  length-replaced item (x ∷ xs) = omega (arith, length-replaced item xs)

  pub length-removed :
      (item_id : ℕ) (store : List A) → length (removed item_id store) ≤ length store
  unfolding removed
  length-removed item_id [] = omega arith
  length-removed item_id (x ∷ xs) = ground (arith, length-removed item_id xs)

  update_item-missing :
      (item : A) (store : List A)
      → is_some (get (e.id item) store) ≡ false
      → update_item item store ≡ (err key_error, store)
  unfolding update_item
  update_item-missing item store h = rw h

  -- A loop of updates keeps the keys apart and the number of entries.
  pub update_each-keeps :
      (p : A → Bool) (f : A → A) (xs store : List A)
      → IsKeyed store
      → IsKeyed (update_each p f xs store).1 × (length (update_each p f xs store).1 ≡ length store)
  unfolding update_each pure ◌>>=◌
  update_each-keeps p f [] store h = (h, refl)
  update_each-keeps p f (x ∷ xs) store h = elim (Bool-cases (p x)) [
    | inl e' ↦ elim (Bool-cases (is_some (get (e.id (f x)) store))) [
      | inl found ↦
          let (keyed, same) =
            update_each-keeps p f xs (replaced (f x) store) (IsKeyed-replaced (f x) store h) in
          rw (e', update_item-stored (f x) store found) (keyed, same ∙ length-replaced (f x) store)
      | inr missing ↦ rw (e', update_item-missing (f x) store missing) (h, refl)
    ]
    | inr e' ↦ rw e' (update_each-keeps p f xs store h)
  ]
