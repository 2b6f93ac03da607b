-- ===== src/Repositories/Each.antt =====
-- Loops over a listing that delete or update what they list, and what they leave in the store.
pub mod Laws
use wander_mind.Prelude.{Bool, Option, none, some, List, [], ◌∷◌, if◌then◌else◌}
use wander_mind.Exec.{Result, ok, err, Exec, pure, ◌>>=◌, ◌>>◌}
use wander_mind.Repositories.Store.{Entity, StoreError, removed, update}

module _ {A : Type 0} ⦃e : Entity A⦄ where
  -- `for x in xs: delete(x.id)`
  unfoldable pub delete_each : List A → List A → List A
  delete_each [] store = store
  delete_each (x ∷ xs) store = delete_each xs (removed (e.id x) store)

  abbrev settled : Result StoreError (List A) → List A → Result StoreError (Unit {0}) × List A
  settled (ok ys) xs = (ok tt, ys)
  settled (err error) xs = (err error, xs)

  unfoldable pub update_item : A → Exec StoreError (List A) (Unit {0})
  unfolding update
  update_item item store = settled (update item store) store

  -- `for x in xs: if p(x): update(f(x))`, where `f` is what the loop changes in `x`.
  unfoldable pub update_each : (A → Bool) → (A → A) → List A → Exec StoreError (List A) (Unit {0})
  unfolding update_item
  update_each p f [] = pure tt
  update_each p f (x ∷ xs) = do if p x then update_item (f x) else pure tt; update_each p f xs

  -- What `p` holds of is gone.
  abbrev pub without : (A → Bool) → Option A → Option A
  without p none = none
  without p (some x) = if p x then none else some x

  -- What `p` holds of is changed by `f`.
  abbrev pub changed : (A → Bool) → (A → A) → Option A → Option A
  changed p f none = none
  changed p f (some x) = if p x then some (f x) else some x
