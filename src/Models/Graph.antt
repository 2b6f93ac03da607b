-- ===== src/Models/Graph.antt =====
-- `KnowledgeEdge` of backend/src/wandermind/models/knowledge.py, with its validator, and `Feedback` of
-- models/thought.py.
use wander_mind.Prelude.{ℕ, Text, String, Bool, not, ◌==◌, Option}
use wander_mind.Float.{Float}
use wander_mind.Models.Enums.{RelationType, FeedbackAction}

-- `wonder_id` is `metadata["wonder_id"]`.
pub record KnowledgeEdge : Type 0 where
  pub id : ℕ
  pub source_id : ℕ
  pub target_id : ℕ
  pub relation_type : RelationType
  pub weight : Float
  pub confidence : Float
  pub created_by : String
  pub wonder_id : Option ℕ

-- `reject_self_loop`: whether the validator accepts the edge.
unfoldable pub reject_self_loop : KnowledgeEdge → Bool
reject_self_loop edge = not (edge.source_id == edge.target_id)

-- `value` and `metadata` are left out.
pub record Feedback : Type 0 where
  pub id : ℕ
  pub wonder_id : ℕ
  pub action : FeedbackAction
  pub note : Option Text
