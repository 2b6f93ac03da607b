-- ===== src/Scoring/Subject.antt =====
-- What `WonderScorer` of backend/src/wandermind/cognitive/scoring.py is made with, and the arguments
-- of its `score`.
use wander_mind.Prelude.{Text, Option, none, some, List, [], ◌∷◌, ◌++◌, is_empty, if◌then◌else◌}
use wander_mind.Float.{Float, f0_08, f0_10, f0_12, f0_14, f0_15, f0_18}
use wander_mind.Models.Thought.{KnowledgeItem, Candidate, Seed, Wonder, OperatorResult, Association}
use wander_mind.Models.Graph.{Feedback}
use wander_mind.Scoring.Terms.{spaced}

pub record ScoreWeights : Type 0 where
  pub novelty : Float
  pub surprise : Float
  pub personal_relevance : Float
  pub coherence : Float
  pub generativity : Float
  pub explanatory_power : Float
  pub evidence_potential : Float
  pub cross_domain_value : Float
  pub redundancy_penalty : Float
  pub arbitrariness_penalty : Float
  pub hallucination_risk_penalty : Float

abbrev pub default_weights : ScoreWeights
default_weights = record {
  novelty = f0_18;
  surprise = f0_12;
  personal_relevance = f0_18;
  coherence = f0_12;
  generativity = f0_14;
  explanatory_power = f0_10;
  evidence_potential = f0_08;
  cross_domain_value = f0_08;
  redundancy_penalty = f0_12;
  arbitrariness_penalty = f0_10;
  hallucination_risk_penalty = f0_15;
}

-- `f"{item.title} {item.summary or item.content}"` of each source.
unfoldable pub source_texts : List KnowledgeItem → List Text
unfolding spaced
source_texts [] = []
source_texts (item ∷ items) =
    spaced item.title (if is_empty item.summary then item.content else item.summary)
    ∷ source_texts items

unfoldable pub all_topics : List KnowledgeItem → List Text
all_topics [] = []
all_topics (item ∷ items) = item.topics ++ all_topics items

-- `knowledge_items or source_items`
unfoldable pub known_or : Option (List KnowledgeItem) → List KnowledgeItem → List KnowledgeItem
known_or none items = items
known_or (some known) items = if is_empty known then items else known

-- What a score is about.
pub record Scored : Type 0 where
  pub candidate : Candidate
  pub result : OperatorResult
  pub seed : Seed
  pub source_items : List KnowledgeItem
  pub association : Association
  pub historical_wonders : List Wonder
  pub knowledge_items : Option (List KnowledgeItem)
  pub feedback_history : List (Wonder × Feedback)
