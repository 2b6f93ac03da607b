-- ===== src/Engine/Pairs.antt =====
-- `_pinned_pair` and `_candidate_pairs` of backend/src/wandermind/cognitive/engine.py: the order in
-- which a run explores the pairs of ranked items.
pub mod Order
use wander_mind.Prelude.{
  ℕ, Bool, ◌&&◌, ◌||◌, Option, none, some, List, [], ◌∷◌, ◌++◌, map, ltb, ◌==◌, if◌then◌else◌,
}
use wander_mind.Prelude.Sort.{sort_desc}
use wander_mind.Float.{FloatOps}
use wander_mind.Models.Thought.{KnowledgeItem, RetrievedItem}
use wander_mind.Engine.Admit.{has_pair}

abbrev pub ItemPair : Type 0
ItemPair = RetrievedItem × RetrievedItem

abbrev pub pair_ids : ItemPair → ℕ × ℕ
pair_ids (l, r) = (l.item.id, r.item.id)

unfoldable pub find_item : List KnowledgeItem → ℕ → Option KnowledgeItem
find_item [] item_id = none
find_item (x ∷ xs) item_id =
    let rest = find_item xs item_id in
    elim rest [ some y ↦ some y | none ↦ if x.id == item_id then some x else none ]

abbrev distinct_items :
    Option KnowledgeItem → Option KnowledgeItem → Option (KnowledgeItem × KnowledgeItem)
distinct_items (some a) (some b) = if a.id == b.id then none else some (a, b)
distinct_items _ _ = none

abbrev pinned_ids : List KnowledgeItem → List ℕ → Option (KnowledgeItem × KnowledgeItem)
pinned_ids items (a ∷ b ∷ []) = distinct_items (find_item items a) (find_item items b)
pinned_ids items _ = none

-- Two ids of active items that the seed's metadata names, if they are two.
unfoldable pub pinned_pair :
    Option (List ℕ) → List KnowledgeItem → Option (KnowledgeItem × KnowledgeItem)
unfolding find_item
pinned_pair none items = none
pinned_pair (some raw_ids) items = pinned_ids items raw_ids

-- `ranked_by_id.get(id)`: of two items with one id the later counts.
unfoldable pub ranked_by_id : List RetrievedItem → ℕ → Option RetrievedItem
ranked_by_id [] item_id = none
ranked_by_id (x ∷ xs) item_id =
    let rest = ranked_by_id xs item_id in
    elim rest [ some y ↦ some y | none ↦ if x.item.id == item_id then some x else none ]

abbrev both : Option RetrievedItem → Option RetrievedItem → List ItemPair
both (some l) (some r) = (l, r) ∷ []
both _ _ = []

unfoldable pub pinned_first :
    List RetrievedItem → Option (KnowledgeItem × KnowledgeItem) → List ItemPair
unfolding ranked_by_id
pinned_first ranked none = []
pinned_first ranked (some (a, b)) = both (ranked_by_id ranked a.id) (ranked_by_id ranked b.id)

-- The pairs of positions `left_index < right_index`, in the order of the comprehension.
unfoldable pub ranked_pairs : List RetrievedItem → List ItemPair
ranked_pairs [] = []
ranked_pairs (x ∷ xs) = map (λ y. (x, y)) xs ++ ranked_pairs xs

-- The key `(abs(l.distance - r.distance), l.relevance + r.relevance)`, compared as a tuple.
unfoldable pub pair_below : FloatOps → ItemPair → ItemPair → Bool
pair_below ops (a, b) (c, d) =
    let near = ops.abs_diff a.distance b.distance in
    let far = ops.abs_diff c.distance d.distance in
    ltb near far
    || (near == far && ltb (ops.add a.relevance b.relevance) (ops.add c.relevance d.relevance))

-- The loop over the sorted pairs: a pair whose two ids were seen is passed over.
unfoldable pub add_unseen : List (ℕ × ℕ) → List ItemPair → List ItemPair
add_unseen seen [] = []
add_unseen seen (p ∷ ps) =
    let old = add_unseen seen ps in
    let new = p ∷ add_unseen (pair_ids p ∷ seen) ps in
    if has_pair seen (pair_ids p) then old else new

unfoldable pub candidate_pairs :
    FloatOps → List RetrievedItem → Option (KnowledgeItem × KnowledgeItem) → List ItemPair
unfolding pinned_first ranked_pairs add_unseen
candidate_pairs ops ranked pinned =
    let first = pinned_first ranked pinned in
    first ++ add_unseen (map pair_ids first) (sort_desc (pair_below ops) (ranked_pairs ranked))
