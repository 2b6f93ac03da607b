-- ===== src/Repositories/Store.antt =====
-- `InMemoryStore` of backend/src/wandermind/repositories/in_memory.py: a dictionary from the id of an
-- item to the item, in the order of insertion. It is the list of its values here, since each key is
-- the id of its value; so a key stands in it once at most, and what reads or changes the entry of a
-- key may go by all values with that id.
pub mod Laws
pub mod Refines
pub mod Pages
use wander_mind.Prelude.{
  ℕ, Bool, Option, none, some, List, [], ◌∷◌, ◌++◌, is_some, take, drop, ◌==◌, if◌then◌else◌,
}
use wander_mind.Exec.{Result, ok, err}

-- `ValueError` of `create`, `KeyError` of `update`, and the ValidationError of a model that is made.
pub data StoreError : Type 0 where
  value_error key_error validation_error : StoreError

-- A stored type and its `id`.
pub record Entity (A : Type 0) : Type 0 where
  pub id : A → ℕ

module _ {A : Type 0} ⦃e : Entity A⦄ where
  unfoldable pub get : ℕ → List A → Option A
  get item_id [] = none
  get item_id (x ∷ xs) = if e.id x == item_id then some x else get item_id xs

  unfoldable pub replaced : A → List A → List A
  replaced item [] = []
  replaced item (x ∷ xs) = (if e.id x == e.id item then item else x) ∷ replaced item xs

  unfoldable pub removed : ℕ → List A → List A
  removed item_id [] = []
  removed item_id (x ∷ xs) =
      if e.id x == item_id then removed item_id xs else x ∷ removed item_id xs

  unfoldable pub create : A → List A → Result StoreError (List A)
  unfolding get
  create item xs = if is_some (get (e.id item) xs) then err value_error else ok (xs ++ item ∷ [])

  unfoldable pub update : A → List A → Result StoreError (List A)
  unfolding get replaced
  update item xs = if is_some (get (e.id item) xs) then ok (replaced item xs) else err key_error

  -- The store after it, and whether there was an entry.
  unfoldable pub delete : ℕ → List A → List A × Bool
  unfolding get removed
  delete item_id xs = (removed item_id xs, is_some (get item_id xs))

-- `list(self._items.values())[offset : offset + limit]`
unfoldable pub list : {A : Type 0} → ℕ → ℕ → List A → List A
list offset limit xs = take limit (drop offset xs)

-- The values that a query keeps, in their order.
unfoldable pub select : {A : Type 0} → (A → Bool) → List A → List A
select p [] = []
select p (x ∷ xs) = if p x then x ∷ select p xs else select p xs
