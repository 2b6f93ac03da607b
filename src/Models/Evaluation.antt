-- ===== src/Models/Evaluation.antt =====
-- The outputs of a deep evaluation, backend/src/wandermind/application/evaluation.py, and what
-- `WonderPromotionService` of application/wonder_service.py keeps of one in a wonder's metadata.
use wander_mind.Prelude.{ℕ, Text, Bool, Option, List}
use wander_mind.Float.{Float}

pub data EvaluationStatus : Type 0 where
  completed failed : EvaluationStatus

pub record ExplorerOutput : Type 0 where
  pub expanded_idea : Text
  pub implications : List Text
  pub follow_up_questions : List Text
  pub possible_support : List Text
  pub possible_failure_modes : List Text

-- A source reference, a string, is a number, and 0 is the empty one.
pub record EvidenceOutput : Type 0 where
  pub supporting_evidence : List Text
  pub counter_evidence : List Text
  pub source_refs : List ℕ
  pub uncertainty : Float
  pub status : EvaluationStatus
  pub error : Option Text

pub data CriticVerdict : Type 0 where
  pass revise reject : CriticVerdict

pub record CriticOutput : Type 0 where
  pub weakness : List Text
  pub obviousness : Float
  pub over_analogy : Bool
  pub factual_risk : Float
  pub alternative_explanation : List Text
  pub verdict : CriticVerdict

pub record DeepEvaluationResult : Type 0 where
  pub explorer : Option ExplorerOutput
  pub evidence : EvidenceOutput
  pub critic : CriticOutput

-- `source_refs`, `critic` and `evidence_status` of a wonder's metadata.
pub record EvaluationMetadata : Type 0 where
  pub source_refs : List ℕ
  pub critic : CriticOutput
  pub evidence_status : EvaluationStatus
