-- ===== src/Models/Enums.antt =====
-- backend/src/wandermind/models/enums.py: the enumerations that the modelled services test.
pub data KnowledgeStatus : Type 0 where
  active archived rejected unresolved : KnowledgeStatus

pub data RelationType : Type 0 where
  similar_to contradicts causes derived_from analogy_of inspired_by evidence_for evidence_against
        combines_with abstracts instantiates questions evolves_from :
      RelationType

pub data SeedSource : Type 0 where
  explicit recent unresolved weak_idea random_revival : SeedSource

pub data SeedStatus : Type 0 where
  pending active used archived : SeedStatus

pub data WonderType : Type 0 where
  spark question connection hypothesis insight : WonderType

pub data CandidateStatus : Type 0 where
  generated filtered promising explored rejected promoted : CandidateStatus

pub data WonderStatus : Type 0 where
  active saved dismissed incubating superseded : WonderStatus

pub data FeedbackAction : Type 0 where
  interesting very_interesting not_interesting already_knew save save_for_later continue
        continue_explore obvious random too_random wrong irrelevant inspired_new_idea :
      FeedbackAction

pub data CognitiveState : Type 0 where
  idle seeding wander collision generate score explore critique persist surface stopped failed :
      CognitiveState

pub data SessionStatus : Type 0 where
  pending running completed stopped failed : SessionStatus

pub data AutopilotStatus : Type 0 where
  active paused stopped : AutopilotStatus

-- `ThresholdDecision` of cognitive/scoring.py.
pub data ThresholdDecision : Type 0 where
  reject keep_candidate deep_explore surface : ThresholdDecision

-- `review.verdict`; any other string is `other`.
pub data Verdict : Type 0 where
  pass revise reject other : Verdict

-- `metadata["promotion_basis"]` of a wonder.
pub data PromotionBasis : Type 0 where
  runtime_revision runtime_review score_threshold : PromotionBasis

-- The keys of `quality_guards`.
pub data GuardReason : Type 0 where
  patch_switch_budget candidate_convergence arbitrariness_guard hallucination_guard
        novelty_exhausted :
      GuardReason

pub GuardReason-discrete : Discrete GuardReason
GuardReason-discrete = hlevel

pub RelationType-discrete : Discrete RelationType
RelationType-discrete = hlevel
