-- ===== src/Engine/Pairs/Order.antt =====
-- The pairs that a run explores: none twice, and none left out.
use mathlib.Core.List.{Memᴰ}
use mathlib.Core.List.Memᴰ
use mathlib.Core.List.{map-append}
use mathlib.Core.List.Perm.{mem_iff}
use mathlib.Core.Bool.{Bool-set}
use mathlib.Core.Logic.{∥∥₁_elim}
use wander_mind.Prelude.{
  ◌⊎◌, refl, ◌≡◌, ◌∷◌, ◌++◌, [], none, some, true, false, ℕ, Option, List, Bool, arith, map, ◌||◌,
  Bool-cases, inl, inr,
}
use wander_mind.Prelude.Sort.{sort_desc, sort_desc-perm}
use wander_mind.Float.{FloatOps}
use wander_mind.Models.Thought.{RetrievedItem, KnowledgeItem}
use wander_mind.Engine.Admit.{same_pair, has_pair}
use wander_mind.Engine.Pairs.{
  ItemPair, pair_ids, pinned_first, ranked_pairs, pair_below, add_unseen, candidate_pairs,
}

same_pair_comm : (p q : ℕ × ℕ) → same_pair p q ≡ same_pair q p
unfolding same_pair
same_pair_comm (a, b) (c, d) = ground arith

-- No pair of the list has the ids of a pair of `seen`.
abbrev AreUnseen : List (ℕ × ℕ) → List ItemPair → Type 0
AreUnseen seen [] = Unit
AreUnseen seen (p ∷ ps) = (has_pair seen (pair_ids p) ≡ false) × AreUnseen seen ps

-- No two pairs of the list have the same two ids, in either order.
abbrev pub NoRepeat : List ItemPair → Type 0
NoRepeat [] = Unit
NoRepeat (p ∷ ps) = AreUnseen (pair_ids p ∷ []) ps × NoRepeat ps

AreUnseen-tail :
    (q : ℕ × ℕ) (seen : List (ℕ × ℕ)) (ps : List ItemPair)
    → AreUnseen (q ∷ seen) ps
    → AreUnseen seen ps × AreUnseen (q ∷ []) ps
unfolding has_pair
AreUnseen-tail q seen [] h = (tt, tt)
AreUnseen-tail q seen (p ∷ ps) h =
    let (a, b) = AreUnseen-tail q seen ps h.1 in ((ground arith, a), (ground arith, b))

add_unseen-AreUnseen :
    (seen : List (ℕ × ℕ)) (ps : List ItemPair) → AreUnseen seen (add_unseen seen ps)
unfolding add_unseen
add_unseen-AreUnseen seen [] = tt
add_unseen-AreUnseen seen (p ∷ ps) = elim (Bool-cases (has_pair seen (pair_ids p))) [
  | inl e ↦ rw e (add_unseen-AreUnseen seen ps)
  | inr e ↦
      rw e (e, (AreUnseen-tail (pair_ids p) seen _ (add_unseen-AreUnseen (pair_ids p ∷ seen) ps)).0)
]

add_unseen-NoRepeat : (seen : List (ℕ × ℕ)) (ps : List ItemPair) → NoRepeat (add_unseen seen ps)
unfolding add_unseen
add_unseen-NoRepeat seen [] = tt
add_unseen-NoRepeat seen (p ∷ ps) = elim (Bool-cases (has_pair seen (pair_ids p))) [
  | inl e ↦ rw e (add_unseen-NoRepeat seen ps)
  | inr e ↦ rw e (
    (AreUnseen-tail (pair_ids p) seen _ (add_unseen-AreUnseen (pair_ids p ∷ seen) ps)).1,
    add_unseen-NoRepeat (pair_ids p ∷ seen) ps,
  )
]

same_pair_refl : (p : ℕ × ℕ) → same_pair p p ≡ true
unfolding same_pair
same_pair_refl (a, b) = ground arith

regroup_or : (a b c : Bool) → ((a || b) || c) ≡ true → (b || (a || c)) ≡ true
regroup_or a b c h = ground arith

-- A pair of the list was seen, or is kept.
covers :
    (seen : List (ℕ × ℕ)) (ps : List ItemPair) (p : ItemPair)
    → Memᴰ p ps
    → (has_pair seen (pair_ids p) || has_pair (map pair_ids (add_unseen seen ps)) (pair_ids p))
      ≡ true
unfolding add_unseen has_pair
covers seen [] p m = elim m [ ]
covers seen (q ∷ ps) p (Memᴰ.head e) = elim (Bool-cases (has_pair seen (pair_ids q))) [
  | inl t ↦ rw (e, t)
  | inr f ↦ rw (e, f) (rw same_pair_refl)
]
covers seen (q ∷ ps) p (Memᴰ.tail m) = elim (Bool-cases (has_pair seen (pair_ids q))) [
  | inl t ↦ rw t (covers seen ps p m)
  | inr f ↦ rw f (
      regroup_or (same_pair (pair_ids q) (pair_ids p)) (has_pair seen (pair_ids p)) _
        (covers (pair_ids q ∷ seen) ps p m))
]

has_pair-append :
    (xs ys : List (ℕ × ℕ)) (p : ℕ × ℕ) → has_pair (xs ++ ys) p ≡ (has_pair xs p || has_pair ys p)
unfolding has_pair
has_pair-append [] ys p = refl
has_pair-append (x ∷ xs) ys p = ground (arith, has_pair-append xs ys p)

-- The pinned pair, if the ranking has both of its items, is one pair.
pinned_single :
    (ranked : List RetrievedItem) (pinned : Option (KnowledgeItem × KnowledgeItem))
    → (pinned_first ranked pinned ≡ []) ⊎ ((p : ItemPair) × (pinned_first ranked pinned ≡ p ∷ []))
unfolding pinned_first
pinned_single ranked none = inl refl
pinned_single ranked (some (a, b)) = ground arith

-- A pair of these two items, in either order.
abbrev pub HasIds : ItemPair → RetrievedItem → RetrievedItem → Type 0
HasIds (a, b) l r =
    ((a.item.id ≡ l.item.id) × (b.item.id ≡ r.item.id))
    ⊎ ((a.item.id ≡ r.item.id) × (b.item.id ≡ l.item.id))

found :
    (ps : List ItemPair) (l r : RetrievedItem)
    → has_pair (map pair_ids ps) (pair_ids (l, r)) ≡ true
    → (p : ItemPair) × Memᴰ p ps × HasIds p l r
unfolding has_pair same_pair
found [] l r h = absurd (cc h)
found ((a, b) ∷ ps) l r h = elim (Bool-cases (same_pair (pair_ids (a, b)) (pair_ids (l, r)))) [
  | inl e ↦ ((a, b), Memᴰ.head refl, ground (arith, e))
  | inr e ↦ let (p, m, ids) = found ps l r (ground (arith, h, e)) in (p, Memᴰ.tail m, ids)
]

Memᴰ-paired :
    (l r : RetrievedItem) (between after : List RetrievedItem)
    → Memᴰ {A = ItemPair} (l, r) (map (λ y. (l, y)) (between ++ r ∷ after))
Memᴰ-paired l r [] after = Memᴰ.head refl
Memᴰ-paired l r (x ∷ between) after = Memᴰ.tail (Memᴰ-paired l r between after)

two_positions :
    (before between after : List RetrievedItem) (l r : RetrievedItem)
    → Memᴰ {A = ItemPair} (l, r) (ranked_pairs (before ++ l ∷ between ++ r ∷ after))
unfolding ranked_pairs
two_positions [] between after l r = Memᴰ.append_left _ (Memᴰ-paired l r between after)
two_positions (x ∷ before) between after l r =
    Memᴰ.append_right _ (two_positions before between after l r)

module _ (ops : FloatOps) (ranked : List RetrievedItem)
    (pinned : Option (KnowledgeItem × KnowledgeItem)) where
  -- No two pairs that a run explores have the same two items, in either order.
  pub candidate_pairs-NoRepeat : NoRepeat (candidate_pairs ops ranked pinned)
  unfolding candidate_pairs
  candidate_pairs-NoRepeat = elim (pinned_single ranked pinned) [
    | inl e ↦ rw e (add_unseen-NoRepeat [] _)
    | inr (p, e) ↦
        rw e (add_unseen-AreUnseen (pair_ids p ∷ []) _, add_unseen-NoRepeat (pair_ids p ∷ []) _)
  ]

  covered :
      (p : ItemPair)
      → Memᴰ p (sort_desc (pair_below ops) (ranked_pairs ranked))
      → has_pair (map pair_ids (candidate_pairs ops ranked pinned)) (pair_ids p) ≡ true
  unfolding candidate_pairs
  covered p m =
      let first = pinned_first ranked pinned in
      let sorted = sort_desc (pair_below ops) (ranked_pairs ranked) in
      rw (map-append, has_pair-append) (covers (map pair_ids first) sorted p m)

  covered_at :
      (p : ItemPair)
      → Memᴰ p (ranked_pairs ranked)
      → has_pair (map pair_ids (candidate_pairs ops ranked pinned)) (pair_ids p) ≡ true
  covered_at p m =
      ∥∥₁_elim ((mem_iff (sort_desc-perm (pair_below ops) (ranked_pairs ranked))).1 ∣ m ∣₁)
        (Bool-set _ _) (covered p)

-- For any two entries of the ranking, wherever they stand in it, a pair that the run explores has the
-- ids of their items, in this order or in the other.
pub candidate_pairs_covers :
    (ops : FloatOps) (pinned : Option (KnowledgeItem × KnowledgeItem))
    (before between after : List RetrievedItem) (l r : RetrievedItem)
    → (p : ItemPair) × Memᴰ p (candidate_pairs ops (before ++ l ∷ between ++ r ∷ after) pinned)
      × HasIds p l r
candidate_pairs_covers ops pinned before between after l r =
    found (candidate_pairs ops (before ++ l ∷ between ++ r ∷ after) pinned) l r (
      covered_at ops (before ++ l ∷ between ++ r ∷ after) pinned (l, r)
        (two_positions before between after l r))
