-- ===== src/Repositories/Store/Refines.antt =====
-- A store seen by its clients: a partial function from ids to items.
use wander_mind.Prelude.{
  ◌⊎◌, ap, ◌∙◌, ℕ, ◌≡◌, refl, Bool, true, Option, none, some, List, [], ◌∷◌, is_some, arith, ◌==◌,
  if◌then◌else◌, inl, inr,
}
use mathlib.Core.Path.{fun_ext}
use wander_mind.Exec.{Result, ok, err}
use wander_mind.Repositories.Store.{
  Entity, StoreError, value_error, key_error, get, replaced, create, update, delete,
}
use wander_mind.Repositories.Store.Laws.{
  IsKeyed, IsKeyed-append, IsKeyed-replaced, IsKeyed-removed, get-append, get-replaced, get-removed,
}

-- The calls that change a store, with the answer that each may give.
pub data Call (A : Type 0) : Type 0 where
  create_call update_call : A → Call A
  delete_call : ℕ → Call A

pub data Answer : Type 0 where
  done : Answer
  raised : StoreError → Answer
  deleted : Bool → Answer

abbrev pub View : Type 0 → Type 0
View A = ℕ → Option A

module _ {A : Type 0} ⦃e : Entity A⦄ where
  -- A raise leaves the store as it was.
  abbrev pub settle : Result StoreError (List A) → List A → Answer × List A
  settle (ok ys) xs = (done, ys)
  settle (err error) xs = (raised error, xs)

  unfoldable pub perform : Call A → List A → Answer × List A
  unfolding create update delete
  perform (create_call item) xs = settle (create item xs) xs
  perform (update_call item) xs = settle (update item xs) xs
  perform (delete_call item_id) xs = let (ys, found) = delete item_id xs in (deleted found, ys)

  unfoldable pub perform_all : List (Call A) → List A → List Answer × List A
  unfolding perform
  perform_all [] xs = ([], xs)
  perform_all (call ∷ calls) xs =
      let (answer, ys) = perform call xs in
      let (answers, zs) = perform_all calls ys in (answer ∷ answers, zs)

  -- The same calls on a partial function.
  abbrev pub assign : ℕ → Option A → View A → View A
  assign key value f item_id = if key == item_id then value else f item_id

  unfoldable pub specified : Call A → View A → Answer × View A
  specified (create_call item) f =
      if is_some (f (e.id item))
      then (raised value_error, f)
      else (done, assign (e.id item) (some item) f)
  specified (update_call item) f =
      if is_some (f (e.id item))
      then (done, assign (e.id item) (some item) f)
      else (raised key_error, f)
  specified (delete_call item_id) f = (deleted (is_some (f item_id)), assign item_id none f)

  unfoldable pub specified_all : List (Call A) → View A → List Answer × View A
  unfolding specified
  specified_all [] f = ([], f)
  specified_all (call ∷ calls) f =
      let (answer, g) = specified call f in
      let (answers, h) = specified_all calls g in (answer ∷ answers, h)

  abbrev pub view : List A → View A
  view xs item_id = get item_id xs

  Option-cases : (o : Option A) → (is_some o ≡ true) ⊎ (o ≡ none)
  Option-cases none = inr refl
  Option-cases (some a) = inl refl

  -- One call answers and changes the view as specified, and keeps the keys apart.
  record Refines (call : Call A) (xs : List A) : Type 0 where
    pub answer : (perform call xs).0 ≡ (specified call (view xs)).0
    pub after : view (perform call xs).1 ≡ (specified call (view xs)).1
    pub keyed : IsKeyed (perform call xs).1

  perform-Refines : (call : Call A) (xs : List A) → IsKeyed xs → Refines call xs
  unfolding perform specified
  perform-Refines (create_call item) xs h = elim (Option-cases (get (e.id item) xs)) [
    | inl taken ↦ record { answer = rw taken; after = rw taken refl; keyed = rw taken h }
    | inr free ↦ record {
      answer = rw free;
      after = rw free (fun_ext (λ k. get-append k xs item free));
      keyed = rw free (IsKeyed-append xs item free h);
    }
  ]
  perform-Refines (update_call item) xs h = elim (Option-cases (get (e.id item) xs)) [
    | inl there ↦ record {
      answer = rw there;
      after = rw there (fun_ext (λ k. assigned k there));
      keyed = rw there (IsKeyed-replaced item xs h);
    }
    | inr missing ↦ record { answer = rw missing; after = rw missing refl; keyed = rw missing h }
  ]
    where
      assigned :
          (k : ℕ)
          → is_some (get (e.id item) xs) ≡ true
          → get k (replaced item xs) ≡ (if e.id item == k then some item else get k xs)
      assigned k there = get-replaced k item xs ∙ ground (arith, there)
  perform-Refines (delete_call item_id) xs h = record {
    answer = refl;
    after = fun_ext (λ k. get-removed k item_id xs);
    keyed = IsKeyed-removed item_id xs h;
  }

  -- On a store whose keys are apart, any sequence of calls answers as it does on the partial function
  -- that reads the store, raises included, leaves what that function then says, and keeps keys apart.
  pub perform_all-Refines :
      (calls : List (Call A)) (xs : List A)
      → IsKeyed xs
      → ((perform_all calls xs).0 ≡ (specified_all calls (view xs)).0)
        × (view (perform_all calls xs).1 ≡ (specified_all calls (view xs)).1)
        × IsKeyed (perform_all calls xs).1
  unfolding perform_all specified_all
  perform_all-Refines [] xs h = (refl, refl, h)
  perform_all-Refines (call ∷ calls) xs h =
      let r = perform-Refines call xs h in
      let (answers, views, keyed) = perform_all-Refines calls (perform call xs).1 r.keyed in
      let same = ap (λ f. specified_all calls f) r.after in
      (λ i. r.answer i ∷ (answers ∙ ap (λ p. p.0) same) i, views ∙ ap (λ p. p.1) same, keyed)
