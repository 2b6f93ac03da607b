-- ===== src/Models/Quality.antt =====
-- The metadata of wonders and knowledge that the autopilot of backend/src/wandermind/application
-- keeps: the results of its quality gate, and a wonder's review as it was stored.
use wander_mind.Prelude.{ℕ, Text, Bool, Option, List}
use wander_mind.Float.{Float}
use wander_mind.Models.Enums.{Verdict}

-- The strings of `reasons`.
pub data QualityReason : Type 0 where
  total_score_below_quality_floor confidence_too_low coherence_too_low evidence_potential_too_low
        redundancy_too_high arbitrariness_too_high hallucination_risk_too_high
        supporting_evidence_missing counter_evidence_missing validation_questions_missing
        independent_review_missing insufficient_grounded_sources uncertainty_too_high
        factual_risk_too_high revised_claim_factual_risk_too_high runtime_revision_missing
        independent_review_not_passed insufficient_source_lineage source_knowledge_missing
        source_lineage_not_original source_wonder_missing :
      QualityReason

pub QualityReason-discrete : Discrete QualityReason
QualityReason-discrete = hlevel

pub record QualityGateResult : Type 0 where
  pub accepted : Bool
  pub reasons : List QualityReason

-- The keys of the dictionary `metadata["runtime_review"]` that the gate reads. A value that is no
-- number, or no list, is `none`; a source reference is a number, and 0 one that is falsy.
pub record ReviewMetadata : Type 0 where
  pub verdict : Verdict
  pub uncertainty : Option Float
  pub factual_risk : Option Float
  pub supporting_source_refs : Option (List ℕ)
  pub revised_statement : Option Text
  pub expanded_idea : Option Text

-- `metadata["epistemic_status"]`; a missing one is `source_knowledge`.
pub data EpistemicStatus : Type 0 where
  source_knowledge reviewed_hypothesis quality_rejected encoding_corrupted other_status :
      EpistemicStatus

-- `metadata["autopilot_promotion_skipped"]`
pub data SkipReason : Type 0 where
  quality_gate normalized_hash semantic_similarity : SkipReason
