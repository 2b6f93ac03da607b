-- ===== src/DeepEvaluation/Evidence.antt =====
-- What `_sanitize_evidence` of backend/src/wandermind/application/explore_service.py leaves.
use wander_mind.Prelude.{
  ℕ, ◌≤◌, ◌≡◌, refl, inl, inr, true, false, not, ◌||◌, List, [], ◌∷◌, contains, insert_new,
  is_empty, Bool-cases, arith,
}
use wander_mind.Float.{f0_80}
use wander_mind.Models.Thought.{KnowledgeItem}
use wander_mind.Models.Evaluation.{EvidenceOutput}
use wander_mind.Quality.{distinct_ids}
use wander_mind.Runtimes.Grounded.{AllTrusted, insert_new-AllTrusted}
use wander_mind.DeepEvaluation.{allowed_refs, is_subset, sanitize_evidence}

distinct_ids-AllTrusted :
    (trusted seen refs : List ℕ)
    → is_subset refs trusted ≡ true
    → AllTrusted trusted seen
    → AllTrusted trusted (distinct_ids seen refs)
unfolding is_subset distinct_ids
distinct_ids-AllTrusted trusted seen [] h k = k
distinct_ids-AllTrusted trusted seen (r ∷ refs) h k =
    distinct_ids-AllTrusted trusted (insert_new seen r) refs (ground (arith, h))
      (insert_new-AllTrusted trusted seen r (ground (arith, h)) k)

-- What was seen stays.
distinct_ids_given :
    (seen refs : List ℕ) → is_empty seen ≡ false → is_empty (distinct_ids seen refs) ≡ false
unfolding distinct_ids insert_new
distinct_ids_given seen [] h = h
distinct_ids_given seen (r ∷ refs) h = distinct_ids_given (insert_new seen r) refs (kept seen h)
  where
    kept : (seen : List ℕ) → is_empty seen ≡ false → is_empty (insert_new seen r) ≡ false
    kept [] h = cc
    kept (x ∷ seen) h = elim (Bool-cases (contains (x ∷ seen) r)) [
      | inl e ↦ rw e refl
      | inr e ↦ rw e refl
    ]

-- Evidence whose references are distinct ones of the context, and that claims nothing without one.
pub record IsSourced (context : List KnowledgeItem) (evidence : EvidenceOutput) : Type 0 where
  pub sourced : AllTrusted (allowed_refs context) evidence.source_refs
  pub unsourced :
      is_empty evidence.source_refs ≡ true
      → (evidence.supporting_evidence ≡ [])
        × (evidence.counter_evidence ≡ [])
        × (f0_80 ≤ evidence.uncertainty)

pub sanitize_evidence-IsSourced :
    (evidence : EvidenceOutput) (context : List KnowledgeItem)
    → IsSourced context (sanitize_evidence evidence context)
unfolding sanitize_evidence contains distinct_ids insert_new
sanitize_evidence-IsSourced evidence context =
    elim (Bool-cases (
      is_empty evidence.source_refs
      || not (is_subset evidence.source_refs (allowed_refs context)))) [
        | inl bad ↦ rw bad (record { sourced = tt; unsourced = λ e. (refl, refl, ground arith) })
        | inr good ↦ rw good (record {
          sourced =
              distinct_ids-AllTrusted (allowed_refs context) [] evidence.source_refs
                (ground (arith, good)) tt;
          unsourced = λ e. absurd (given evidence.source_refs (ground (arith, good)) e);
        })
      ]
  where
    given : (refs : List ℕ) → is_empty refs ≡ false → is_empty (distinct_ids [] refs) ≡ true → ⊥
    given [] h e = cc
    given (r ∷ refs) h e = cc (distinct_ids_given (r ∷ []) refs refl)
