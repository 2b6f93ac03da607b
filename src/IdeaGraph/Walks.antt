-- ===== src/IdeaGraph/Walks.antt =====
-- Walks along the lineage edges of a graph, and the lists of what a search finds.
use mathlib.Core.List.{Memᴰ}
use wander_mind.Prelude.{
  ℕ, suc, Bool, true, ◌||◌, inl, inr, ◌≡◌, refl, List, [], ◌∷◌, ◌++◌, ◌==◌, is_some, contains,
  Bool-cases, arith, sym, ap, ◌∙◌,
}
use wander_mind.Prelude.Sort.{sort_desc, insert_desc}
use wander_mind.Models.Graph.{KnowledgeEdge}
use wander_mind.Repositories.Store.{get, select}
use wander_mind.Repositories.Bundle.{
  touches, KnowledgeItem_entity, KnowledgeEdge_entity, Seed_entity, Wonder_entity, Candidate_entity,
  WanderSession_entity, Feedback_entity, RuntimeSession_entity,
}
use wander_mind.Repositories.Each.Laws.{keys}
use wander_mind.IdeaGraph.{is_lineage, adjacent_id, set_default, sort_ids, sort_edges}

-- A stored lineage edge at an item.
pub record LineageAt (graph : List KnowledgeEdge) (item_id : ℕ) (edge : KnowledgeEdge)
    : Type 0 where
  pub stored : Memᴰ edge graph
  pub lineage : is_lineage edge ≡ true
  pub touching : touches item_id edge ≡ true

-- From one item to another in so many steps, each over a lineage edge in either direction.
pub data Walk (graph : List KnowledgeEdge) : ℕ → ℕ → ℕ → Type 0 where
  stay : {a : ℕ} → Walk graph a 0 a
  step :
      {a b n : ℕ} (edge : KnowledgeEdge)
      → LineageAt graph a edge
      → Walk graph (adjacent_id a edge) n b
      → Walk graph a (suc n) b

abbrev pub Each : {A : Type 0} → (A → Type 0) → List A → Type 0
Each P [] = Unit
Each P (x ∷ xs) = P x × Each P xs

pub Each-append :
    {A : Type 0} (P : A → Type 0) (xs : List A) (x : A) → Each P xs → P x → Each P (xs ++ x ∷ [])
Each-append P [] x h p = (p, tt)
Each-append P (y ∷ ys) x h p = (h.0, Each-append P ys x h.1 p)

pub Each-imp :
    {A : Type 0} (P Q : A → Type 0) → ((x : A) → P x → Q x) → (xs : List A) → Each P xs → Each Q xs
Each-imp P Q f [] h = tt
Each-imp P Q f (x ∷ xs) h = (f x h.0, Each-imp P Q f xs h.1)

insert_desc-Each :
    {A : Type 0} (P : A → Type 0) (lt : A → A → Bool) (x : A) (xs : List A)
    → P x
    → Each P xs
    → Each P (insert_desc lt x xs)
unfolding insert_desc
insert_desc-Each P lt x [] p h = (p, tt)
insert_desc-Each P lt x (y ∷ ys) p h = elim (Bool-cases (lt x y)) [
  | inl e ↦ rw e (h.0, insert_desc-Each P lt x ys p h.1)
  | inr e ↦ rw e (p, h)
]

sort_desc-Each :
    {A : Type 0} (P : A → Type 0) (lt : A → A → Bool) (xs : List A)
    → Each P xs
    → Each P (sort_desc lt xs)
unfolding sort_desc
sort_desc-Each P lt [] h = tt
sort_desc-Each P lt (x ∷ xs) h =
    insert_desc-Each P lt x (sort_desc lt xs) h.0 (sort_desc-Each P lt xs h.1)

pub sort_ids-Each : (P : ℕ → Type 0) (ids : List ℕ) → Each P ids → Each P (sort_ids ids)
unfolding sort_ids
sort_ids-Each P ids h = sort_desc-Each P _ ids h

pub sort_edges-Each :
    (P : KnowledgeEdge → Type 0) (edges : List KnowledgeEdge)
    → Each P edges
    → Each P (sort_edges edges)
unfolding sort_edges
sort_edges-Each P edges h = sort_desc-Each P _ edges h

insert_ids :
    (lt : ℕ → ℕ → Bool) (k x : ℕ) (xs : List ℕ)
    → contains (insert_desc lt x xs) k ≡ contains (x ∷ xs) k
unfolding insert_desc contains
insert_ids lt k x [] = refl
insert_ids lt k x (y ∷ ys) = ground (arith, insert_ids lt k x ys)

contains-sort_desc :
    (lt : ℕ → ℕ → Bool) (k : ℕ) (xs : List ℕ) → contains (sort_desc lt xs) k ≡ contains xs k
unfolding sort_desc contains
contains-sort_desc lt k [] = refl
contains-sort_desc lt k (x ∷ xs) =
    ground (arith, insert_ids lt k x (sort_desc lt xs), contains-sort_desc lt k xs)

pub contains-sort_ids : (k : ℕ) (ids : List ℕ) → contains (sort_ids ids) k ≡ contains ids k
unfolding sort_ids
contains-sort_ids k ids = contains-sort_desc _ k ids

insert_keys :
    (lt : KnowledgeEdge → KnowledgeEdge → Bool) (k : ℕ) (x : KnowledgeEdge)
    (xs : List KnowledgeEdge)
    → contains (keys (insert_desc lt x xs)) k ≡ contains (keys (x ∷ xs)) k
unfolding insert_desc contains
insert_keys lt k x [] = refl
insert_keys lt k x (y ∷ ys) = ground (arith, insert_keys lt k x ys)

keys-sort_desc :
    (lt : KnowledgeEdge → KnowledgeEdge → Bool) (k : ℕ) (xs : List KnowledgeEdge)
    → contains (keys (sort_desc lt xs)) k ≡ contains (keys xs) k
unfolding sort_desc contains
keys-sort_desc lt k [] = refl
keys-sort_desc lt k (x ∷ xs) =
    ground (arith, insert_keys lt k x (sort_desc lt xs), keys-sort_desc lt k xs)

pub keys-sort_edges :
    (k : ℕ) (edges : List KnowledgeEdge)
    → contains (keys (sort_edges edges)) k ≡ contains (keys edges) k
unfolding sort_edges
keys-sort_edges k edges = keys-sort_desc _ k edges

keys-append :
    (k : ℕ) (xs : List KnowledgeEdge) (x : KnowledgeEdge)
    → contains (keys (xs ++ x ∷ [])) k ≡ (contains (keys xs) k || x.id == k)
unfolding contains
keys-append k [] x = ground arith
keys-append k (y ∷ ys) x = ground (arith, keys-append k ys x)

get-keys : (k : ℕ) (xs : List KnowledgeEdge) → is_some (get k xs) ≡ contains (keys xs) k
unfolding get contains
get-keys k [] = refl
get-keys k (x ∷ xs) = ground (arith, get-keys k xs)

-- The ids that stand in the dictionary after it.
pub keys-set_default :
    (k : ℕ) (edge : KnowledgeEdge) (found : List KnowledgeEdge)
    → contains (keys (set_default edge found)) k ≡ (contains (keys found) k || edge.id == k)
unfolding set_default
keys-set_default k edge found =
    ground (arith, get-keys edge.id found, get-keys k found, keys-append k found edge)

pub set_default-Each :
    (P : KnowledgeEdge → Type 0) (edge : KnowledgeEdge) (found : List KnowledgeEdge)
    → P edge
    → Each P found
    → Each P (set_default edge found)
unfolding set_default
set_default-Each P edge found p h = elim (Bool-cases (is_some (get edge.id found))) [
  | inl e ↦ rw e h
  | inr e ↦ rw e (Each-append P found edge h p)
]

-- What a query lists is stored, and the query holds of it; and the other way round.
pub select-Each :
    {A : Type 0} (p : A → Bool) (xs : List A)
    → Each (λ (x : A). Memᴰ x xs × (p x ≡ true)) (select p xs)
unfolding select
select-Each p [] = tt
select-Each p (x ∷ xs) =
    let rest =
      Each-imp _ (λ y. Memᴰ y (x ∷ xs) × (p y ≡ true)) (λ y m. (Memᴰ.tail m.0, m.1)) (select p xs)
        (select-Each p xs) in
    elim (Bool-cases (p x)) [ inl e ↦ rw e ((Memᴰ.head refl, e), rest) | inr e ↦ rw e rest ]

pub Mem-select :
    {A : Type 0} (p : A → Bool) (xs : List A) (x : A)
    → Memᴰ x xs
    → p x ≡ true
    → Memᴰ x (select p xs)
unfolding select
Mem-select p [] x m h = elim m [ ]
Mem-select p (y ∷ ys) x (Memᴰ.head e) h = rw (sym (ap p e) ∙ h) (Memᴰ.head e)
Mem-select p (y ∷ ys) x (Memᴰ.tail m) h = elim (Bool-cases (p y)) [
  | inl e ↦ rw e (Memᴰ.tail (Mem-select p ys x m h))
  | inr e ↦ rw e (Mem-select p ys x m h)
]
