-- ===== src/Models/Thought.antt =====
-- backend/src/wandermind/models/thought.py, knowledge.py and cognitive.py: the fields that the run
-- of a wander session reads or writes, and the results of its components
-- (cognitive/runtime_services.py, cognitive/operators/base.py, cognitive/association.py).
use wander_mind.Prelude.{ℕ, Text, String, Bool, Option, List}
use wander_mind.Float.{Float}
use wander_mind.Models.Quality.{EpistemicStatus, QualityGateResult, ReviewMetadata, SkipReason}
use wander_mind.Models.Evaluation.{EvaluationMetadata}
use wander_mind.Models.Enums.{
  FeedbackAction, SeedSource, KnowledgeStatus, SeedStatus, WonderType, CandidateStatus,
  WonderStatus, ThresholdDecision, Verdict, PromotionBasis, GuardReason,
}

-- A vector of components; only the components that are handed it look inside.
abbrev pub Embedding : Type 0
Embedding = List ℕ

pub record KnowledgeItem : Type 0 where
  pub id : ℕ
  pub title : Text
  pub content : Text
  pub summary : Text
  pub source : String
  pub source_ref : Option ℕ
  pub topics : List Text
  pub embedding : Option Embedding
  pub status : KnowledgeStatus
  pub created_at : ℕ
  pub updated_at : ℕ
  pub importance : Float
  pub confidence : Float
  pub epistemic_status : EpistemicStatus
  pub source_wonder_id : Option ℕ
  pub quality_gate : Option QualityGateResult

pub record KnowledgePatch : Type 0 where
  pub id : ℕ
  pub label : Text
  pub member_ids : List ℕ

-- `paired_item_ids` is `seed.metadata["paired_item_ids"]` where that is a list.
pub record Seed : Type 0 where
  pub id : ℕ
  pub content : Text
  pub source : SeedSource
  pub priority : Float
  pub status : SeedStatus
  pub source_item_id : Option ℕ
  pub last_used_at : Option ℕ
  pub paired_item_ids : Option (List ℕ)
  pub created_at : ℕ

pub record WonderScores : Type 0 where
  pub novelty : Float
  pub surprise : Float
  pub personal_relevance : Float
  pub coherence : Float
  pub generativity : Float
  pub explanatory_power : Float
  pub evidence_potential : Float
  pub cross_domain_value : Float
  pub redundancy : Float
  pub arbitrariness : Float
  pub hallucination_risk : Float
  pub total : Float

pub record CandidateReviewResult : Type 0 where
  pub revised_statement : Option Text
  pub expanded_idea : Option Text
  pub supporting_evidence : List Text
  pub counter_evidence : List Text
  -- a source reference, a string, is a number
  pub supporting_source_refs : List ℕ
  pub counter_source_refs : List ℕ
  pub source_refs : List ℕ
  pub uncertainty : Float
  pub weaknesses : List Text
  pub obviousness : Float
  pub factual_risk : Float
  pub alternative_explanations : List Text
  pub verdict : Verdict
  pub runtime_calls : ℕ

pub record OperatorResult : Type 0 where
  pub wonder_type : WonderType
  pub statement : Text
  pub explanation : Text
  pub assumptions : List Text
  pub questions : List Text

pub record CandidateSynthesisResult : Type 0 where
  pub operator_result : OperatorResult
  pub runtime_calls : ℕ
  pub verified : Bool
  pub provider : Option Text
  pub error : Option Text

-- `metadata["runtime_review"]`: the review, or that the budget did not pay for one.
pub data RuntimeReview : Type 0 where
  absent : RuntimeReview
  skipped : RuntimeReview
  reviewed : CandidateReviewResult → RuntimeReview

-- `metadata["runtime_revision"]`
pub record RuntimeRevision : Type 0 where
  pub original_statement : Text
  pub original_explanation : Text
  pub original_scores : WonderScores
  pub revised_scores : WonderScores

pub record Candidate : Type 0 where
  pub id : ℕ
  pub session_id : ℕ
  pub candidate_type : WonderType
  pub statement : Text
  pub explanation : Text
  pub seed_id : ℕ
  pub source_items : List ℕ
  pub operator : String
  pub wander_path : List ℕ
  pub scores : Option WonderScores
  pub status : CandidateStatus
  pub threshold_decision : Option ThresholdDecision
  pub runtime_review : RuntimeReview
  pub runtime_revision : Option RuntimeRevision
  pub quality_guard : Option GuardReason

pub record Wonder : Type 0 where
  pub id : ℕ
  pub session_id : ℕ
  pub seed_id : ℕ
  pub candidate_id : Option ℕ
  pub wonder_type : WonderType
  pub statement : Text
  pub explanation : Text
  pub why_interesting : Text
  pub source_items : List ℕ
  pub connection_path : List ℕ
  pub supporting_evidence : List Text
  pub counter_evidence : List Text
  pub assumptions : List Text
  pub questions : List Text
  pub scores : WonderScores
  pub confidence : Float
  pub status : WonderStatus
  pub parent_wonder_id : Option ℕ
  pub runtime_review : Option ReviewMetadata
  pub promotion_basis : Option PromotionBasis
  pub evaluation : Option EvaluationMetadata
  pub original_statement : Option Text
  pub autopilot_promoted_knowledge_id : Option ℕ
  pub autopilot_quality_gate : Option QualityGateResult
  pub autopilot_promotion_skipped : Option SkipReason
  pub autopilot_promotion_retracted : Bool
  pub autopilot_campaign_id : Option ℕ
  pub last_feedback : Option FeedbackAction
  pub child_wonder_id : Option ℕ
  pub created_at : ℕ

pub record Association : Type 0 where
  pub strength : Float
  pub distance : Float
  pub explanation : Text

pub record RetrievedItem : Type 0 where
  pub item : KnowledgeItem
  pub distance : Float
  pub relevance : Float

pub record OperatorContext : Type 0 where
  pub seed : Seed
  pub left : KnowledgeItem
  pub right : KnowledgeItem
  pub association : Association
