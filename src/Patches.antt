-- ===== src/Patches.antt =====
-- `marginal_novelty_gain` of backend/src/wandermind/cognitive/patches.py.
use wander_mind.Prelude.{
  ℕ, ◌+◌, List, [], ◌∷◌, min, max, length, contains, insert_new, if◌then◌else◌,
}
use wander_mind.Float.{Float, FloatOps, f0_0, f1_0, f0_45, f0_25, f0_30}
use wander_mind.Models.Thought.{KnowledgeItem}

-- `max(0.0, min(1.0, value))`
unfoldable pub clamp : Float → Float
clamp value = max f0_0 (min f1_0 value)

-- `sum(item.id not in visited_ids for item in candidate_items)`
unfoldable pub count_new : List ℕ → List KnowledgeItem → ℕ
count_new visited_ids [] = 0
count_new visited_ids (item ∷ items) =
    let rest = count_new visited_ids items in
    if contains visited_ids item.id then rest else rest + 1

-- `{item.id for item in candidate_items}`
unfoldable pub unique_ids : List ℕ → List KnowledgeItem → List ℕ
unique_ids seen [] = seen
unique_ids seen (item ∷ items) = unique_ids (insert_new seen item.id) items

module _ (ops : FloatOps) where
  unfoldable pub marginal_novelty_gain : List ℕ → List KnowledgeItem → Float → Float
  marginal_novelty_gain visited_ids [] semantic_difference = f0_0
  marginal_novelty_gain visited_ids (item ∷ items) semantic_difference =
      let n = ops.of_int (length (item ∷ items)) in
      let new_node_ratio = ops.over (ops.of_int (count_new visited_ids (item ∷ items))) n in
      let uniqueness = ops.over (ops.of_int (length (unique_ids [] (item ∷ items)))) n in
      clamp (
        ops.add (ops.add (ops.times f0_45 new_node_ratio) (ops.times f0_25 uniqueness))
          (ops.times f0_30 semantic_difference))
