-- ===== src/Engine/Components.antt =====
-- What a wander run asks of its surroundings: the components that `WanderEngine.__init__` takes, the
-- repositories, the clock and fresh identifiers. Each is a function of the number of questions
-- asked so far, so that it may answer otherwise on each call; `none` is an exception.
use wander_mind.Prelude.{ℕ, Text, String, Bool, Option, List}
use wander_mind.Float.{Float, FloatOps}
use wander_mind.Models.Enums.{SessionStatus, ThresholdDecision}
use wander_mind.Models.Thought.{
  Embedding, KnowledgeItem, KnowledgePatch, Seed, WonderScores, CandidateReviewResult,
  OperatorResult, CandidateSynthesisResult, Candidate, Wonder, Association, RetrievedItem,
  OperatorContext,
}

pub record Components : Type 0 where
  pub ops : FloatOps
  -- the interpreter and its libraries
  pub now : ℕ → ℕ
  pub elapsed : ℕ → Float
  pub uuid4 : ℕ → ℕ
  pub sha256_hex : Text → Text
  pub str_int : ℕ → Text
  -- reads of the repositories; of the stored session the status and the cancel flag
  pub stored_session : ℕ → Option (SessionStatus × Bool)
  pub candidates_for_session : ℕ → ℕ → List Candidate
  pub list_wonders : ℕ → List Wonder
  pub list_knowledge : ℕ → Option (List KnowledgeItem)
  pub get_seed : ℕ → ℕ → Option Seed
  -- the components
  pub embed_text : ℕ → Text → Option Embedding
  pub build_patches : ℕ → Seed → List KnowledgeItem → Option (List KnowledgePatch)
  pub rank : ℕ → Embedding → List KnowledgeItem → Text → Option (List RetrievedItem)
  pub analyze : ℕ → KnowledgeItem → KnowledgeItem → Option Association
  pub select_operator : ℕ → OperatorContext → List String → Option String
  pub apply_operator : ℕ → String → OperatorContext → Option OperatorResult
  pub candidate_synthesizer :
      Option (ℕ → OperatorContext → OperatorResult → Option CandidateSynthesisResult)
  pub score :
      ℕ
      → Candidate
      → OperatorResult
      → Seed
      → List KnowledgeItem
      → Association
      → Option (WonderScores × ThresholdDecision)
  pub candidate_reviewer :
      Option (ℕ → Candidate → List KnowledgeItem → Option CandidateReviewResult)
  pub casefold : Text → Text
