-- ===== src/Deletion/Pages.antt =====
-- A loop of updates over a page that has room for the whole store, and what an entry refers to.
use wander_mind.Repositories.Bundle.{
  KnowledgeItem_entity, KnowledgeEdge_entity, Seed_entity, Wonder_entity, Candidate_entity,
  WanderSession_entity, Feedback_entity, RuntimeSession_entity, refers_to,
}
use wander_mind.Prelude.{
  Bool, false, Option, none, some, List, ◌≡◌, refl, ap, ◌∙◌, ◌==◌, length, ◌≤◌, ℕ,
}
use wander_mind.Exec.{ok}
use wander_mind.Repositories.Store.{Entity, list}
use wander_mind.Repositories.Store.Laws.{IsKeyed}
use wander_mind.Repositories.Store.Pages.{list-all}
use wander_mind.Repositories.Each.{update_each}
use wander_mind.Repositories.Each.Laws.{update_each-all}

-- Whether an optional reference is the one to `id`.
abbrev pub points_at : ℕ → Option ℕ → Bool
points_at id none = false
points_at id (some other) = other == id

pub refers_to-points_at : (id : ℕ) (o : Option ℕ) → refers_to id o ≡ points_at id o
unfolding refers_to
refers_to-points_at id none = refl
refers_to-points_at id (some other) = refl

module _ {A : Type 0} ⦃e : Entity A⦄ where
  -- A listing with room for the whole store, updated.
  pub update_each-page :
      (p : A → Bool) (f : A → A)
      → ((x : A) → e.id (f x) ≡ e.id x)
      → (limit : ℕ) (xs : List A) → IsKeyed xs
      → length xs ≤ limit
      → update_each p f (list 0 limit xs) xs ≡ (ok tt, (update_each p f xs xs).1)
  update_each-page p f same_id limit xs keyed room =
      ap (λ ys. update_each p f ys xs) (list-all limit xs room)
      ∙ (λ i. ((update_each-all p f same_id xs keyed).0 i, (update_each p f xs xs).1))
