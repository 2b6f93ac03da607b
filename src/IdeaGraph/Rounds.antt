-- ===== src/IdeaGraph/Rounds.antt =====
-- One round of the search: what it adds is justified, and it leaves out nothing at its frontier.
use mathlib.Core.List.{Memᴰ}
use wander_mind.Prelude.{
  ℕ, true, ◌||◌, inl, inr, ◌≡◌, sym, ap, ◌∙◌, List, [], ◌∷◌, ◌==◌, contains, Bool-cases, arith,
  ==_iff,
}
use wander_mind.Models.Graph.{KnowledgeEdge}
use wander_mind.Repositories.Bundle.{
  touches, list_for_item, KnowledgeItem_entity, KnowledgeEdge_entity, Seed_entity, Wonder_entity,
  Candidate_entity, WanderSession_entity, Feedback_entity, RuntimeSession_entity,
}
use wander_mind.Repositories.Each.Laws.{keys}
use wander_mind.IdeaGraph.{
  Search, is_lineage, adjacent_id, set_default, discover, follow_edge, follow_edges, follow_items,
}
use wander_mind.IdeaGraph.Walks.{LineageAt, keys-set_default, Mem-select}

-- All that was visited at `v` or waits in the next frontier.
abbrev pub Accounted : List ℕ → Search → Type 0
Accounted v w =
    (k : ℕ) → contains w.visited k ≡ true → (contains v k || contains w.next_frontier k) ≡ true

-- Nothing that was found is forgotten, and what is newly visited waits.
pub record Grows (w w' : Search) : Type 0 where
  pub visited : (k : ℕ) → contains w.visited k ≡ true → contains w'.visited k ≡ true
  pub found : (k : ℕ) → contains (keys w.found) k ≡ true → contains (keys w'.found) k ≡ true
  pub accounted : (v : List ℕ) → Accounted v w → Accounted v w'

pub Grows-refl : (w : Search) → Grows w w
Grows-refl w = record { visited = λ k h. h; found = λ k h. h; accounted = λ v h. h }

pub Grows-trans : (u v w : Search) → Grows u v → Grows v w → Grows u w
Grows-trans u v w p q = record {
  visited = λ k h. q.visited k (p.visited k h);
  found = λ k h. q.found k (p.found k h);
  accounted = λ x h. q.accounted x (p.accounted x h);
}

discover-Grows : (a : ℕ) (w : Search) → Grows w (discover a w)
unfolding discover contains
discover-Grows a w = elim (Bool-cases (contains w.visited a)) [
  | inl e ↦ rw e (Grows-refl w)
  | inr e ↦ rw e (record {
    visited = λ k h. ground (arith, h);
    found = λ k h. h;
    accounted = λ v acc k h. ground (arith, h, acc k);
  })
]

discover-visits : (a : ℕ) (w : Search) → contains (discover a w).visited a ≡ true
unfolding discover contains
discover-visits a w = ground arith

set_found-Grows :
    (edge : KnowledgeEdge) (w : Search) → Grows w (record w { found = set_default edge w.found })
set_found-Grows edge w = record {
  visited = λ k h. h;
  found = λ k h. keys-set_default k edge w.found ∙ ground (arith, h);
  accounted = λ v h. h;
}

follow_edge-Grows : (c : ℕ) (edge : KnowledgeEdge) (w : Search) → Grows w (follow_edge c edge w)
unfolding follow_edge
follow_edge-Grows c edge w = elim (Bool-cases (is_lineage edge)) [
  | inl e ↦ rw e (
      Grows-trans w (record w { found = set_default edge w.found }) _ (set_found-Grows edge w)
        (discover-Grows (adjacent_id c edge) _))
  | inr e ↦ rw e (Grows-refl w)
]

follow_edges-Grows :
    (c : ℕ) (edges : List KnowledgeEdge) (w : Search) → Grows w (follow_edges c edges w)
unfolding follow_edges
follow_edges-Grows c [] w = Grows-refl w
follow_edges-Grows c (edge ∷ edges) w =
    Grows-trans w (follow_edge c edge w) _ (follow_edge-Grows c edge w)
      (follow_edges-Grows c edges (follow_edge c edge w))

pub follow_items-Grows :
    (graph : List KnowledgeEdge) (ids : List ℕ) (w : Search) → Grows w (follow_items graph ids w)
unfolding follow_items
follow_items-Grows graph [] w = Grows-refl w
follow_items-Grows graph (c ∷ ids) w =
    let w' = follow_edges c (list_for_item c graph) w in
    Grows-trans w w' _ (follow_edges-Grows c (list_for_item c graph) w)
      (follow_items-Grows graph ids w')

-- The edge was found and the item behind it visited.
unfoldable pub Followed : ℕ → KnowledgeEdge → Search → Type 0
Followed c edge w =
    (contains (keys w.found) edge.id ≡ true) × (contains w.visited (adjacent_id c edge) ≡ true)

Followed-Grows :
    (c : ℕ) (edge : KnowledgeEdge) (w w' : Search)
    → Grows w w'
    → Followed c edge w
    → Followed c edge w'
unfolding Followed
Followed-Grows c edge w w' g h = (g.found edge.id h.0, g.visited (adjacent_id c edge) h.1)

follow_edge-Followed :
    (c : ℕ) (edge : KnowledgeEdge) (w : Search)
    → is_lineage edge ≡ true
    → Followed c edge (follow_edge c edge w)
unfolding Followed follow_edge
follow_edge-Followed c edge w h =
    let w1 = record w { found = set_default edge w.found } in
    rw h (
      (discover-Grows (adjacent_id c edge) w1).found edge.id
          (keys-set_default edge.id edge w.found ∙ ground arith),
      discover-visits (adjacent_id c edge) w1,
    )

follow_edges-Followed :
    (c : ℕ) (edges : List KnowledgeEdge) (edge : KnowledgeEdge) (w : Search)
    → Memᴰ edge edges
    → is_lineage edge ≡ true
    → Followed c edge (follow_edges c edges w)
unfolding follow_edges
follow_edges-Followed c [] edge w m h = elim m [ ]
follow_edges-Followed c (e ∷ edges) edge w (Memᴰ.head same) h = rw same (
    Followed-Grows c e (follow_edge c e w) _ (follow_edges-Grows c edges (follow_edge c e w))
      (follow_edge-Followed c e w (sym (ap is_lineage same) ∙ h)))
follow_edges-Followed c (e ∷ edges) edge w (Memᴰ.tail m) h =
    follow_edges-Followed c edges edge (follow_edge c e w) m h

-- All lineage edges at an item were followed.
unfoldable pub Covers : List KnowledgeEdge → ℕ → Search → Type 0
Covers graph c w = (edge : KnowledgeEdge) → LineageAt graph c edge → Followed c edge w

pub Covers-Grows :
    (graph : List KnowledgeEdge) (c : ℕ) (w w' : Search)
    → Grows w w'
    → Covers graph c w
    → Covers graph c w'
unfolding Covers
Covers-Grows graph c w w' g h edge at = Followed-Grows c edge w w' g (h edge at)

pub follow_items-Covers :
    (graph : List KnowledgeEdge) (ids : List ℕ) (c : ℕ) (w : Search)
    → contains ids c ≡ true
    → Covers graph c (follow_items graph ids w)
unfolding follow_items contains Covers
follow_items-Covers graph [] c w h = absurd (ground (arith, h))
follow_items-Covers graph (a ∷ ids) c w h =
    let w' = follow_edges a (list_for_item a graph) w in
    elim (Bool-cases (a == c)) [
      | inl e ↦
          rw (sym ((==_iff a c).0 e))
            (Covers-Grows graph a w' _ (follow_items-Grows graph ids w') first)
      | inr e ↦ follow_items-Covers graph ids c w' (rw e at h)
    ]
  where
    first : Covers graph a (follow_edges a (list_for_item a graph) w)
    first edge at =
        follow_edges-Followed a (list_for_item a graph) edge w
          (Mem-select (touches a) graph edge at.stored at.touching) at.lineage
