-- ===== src/DeepEvaluation.antt =====
-- backend/src/wandermind/application/explore_service.py: what its services share, and
-- `_sanitize_evidence`. The three services are over one tracked runtime, as the container makes them.
pub mod Prompts
pub mod Services
pub mod Evidence
pub mod Stages
pub mod Sound
use wander_mind.Prelude.{
  ℕ, zero, suc, Text, Bool, true, not, ◌&&◌, ◌||◌, Option, none, some, List, [], ◌∷◌, contains,
  is_empty, max, if◌then◌else◌,
}
use wander_mind.Float.{f0_80}
use wander_mind.Models.Thought.{KnowledgeItem}
use wander_mind.Models.Evaluation.{ExplorerOutput, EvidenceOutput, CriticOutput}
use wander_mind.Quality.{distinct_ids}
use wander_mind.Runtimes.{Adapter}

-- The runtime, the retries of each service, and what libraries do: `_context_payload`, a JSON text,
-- `evidence.model_dump_json()`, and the validation of an answer against its model.
pub record Evaluating : Type 0 where
  pub adapter : Adapter
  pub explorer_retries : ℕ
  pub evidence_retries : ℕ
  pub critic_retries : ℕ
  pub context_payload : List KnowledgeItem → Text
  pub dump_evidence : EvidenceOutput → Text
  pub validate_explorer : Text → Option ExplorerOutput
  pub validate_evidence : Text → Option EvidenceOutput
  pub validate_critic : Text → Option CriticOutput

unfoldable pub add_ref : Option ℕ → List ℕ → List ℕ
add_ref none refs = refs
add_ref (some zero) refs = refs
add_ref (some (suc n)) refs = suc n ∷ refs

-- `{item.source_ref for item in context if item.source_ref}`
unfoldable pub allowed_refs : List KnowledgeItem → List ℕ
unfolding add_ref
allowed_refs [] = []
allowed_refs (item ∷ items) = add_ref item.source_ref (allowed_refs items)

-- `returned_refs.issubset(allowed_refs)`
unfoldable pub is_subset : List ℕ → List ℕ → Bool
unfolding contains
is_subset [] allowed = true
is_subset (r ∷ refs) allowed = contains allowed r && is_subset refs allowed

-- `_sanitize_evidence`
unfoldable pub sanitize_evidence : EvidenceOutput → List KnowledgeItem → EvidenceOutput
unfolding allowed_refs is_subset distinct_ids
sanitize_evidence evidence context =
    if is_empty evidence.source_refs || not (is_subset evidence.source_refs (allowed_refs context))
    then record evidence {
      supporting_evidence = [];
      counter_evidence = [];
      source_refs = [];
      uncertainty = max evidence.uncertainty f0_80;
    }
    else record evidence { source_refs = distinct_ids [] evidence.source_refs }
