-- ===== src/Repositories/Bundle.antt =====
-- `InMemoryRepositoryBundle` of backend/src/wandermind/repositories/in_memory.py: one store for each
-- type, and the queries that single repositories add.
use wander_mind.Prelude.{ℕ, Bool, ◌||◌, Option, none, some, List, ◌==◌, false}
use wander_mind.Models.Thought.{KnowledgeItem, Seed, Candidate, Wonder}
use wander_mind.Models.Graph.{KnowledgeEdge, Feedback}
use wander_mind.Models.Session.{WanderSession}
use wander_mind.Models.Runtime.{RuntimeSession}
use wander_mind.Models.Campaign.{AutopilotCampaign}
use wander_mind.Repositories.Store.{Entity, select}

instance abbrev pub KnowledgeItem_entity : Entity KnowledgeItem
KnowledgeItem_entity = record { id = λ x. x.id }

instance abbrev pub KnowledgeEdge_entity : Entity KnowledgeEdge
KnowledgeEdge_entity = record { id = λ x. x.id }

instance abbrev pub Seed_entity : Entity Seed
Seed_entity = record { id = λ x. x.id }

instance abbrev pub Candidate_entity : Entity Candidate
Candidate_entity = record { id = λ x. x.id }

instance abbrev pub Wonder_entity : Entity Wonder
Wonder_entity = record { id = λ x. x.id }

instance abbrev pub WanderSession_entity : Entity WanderSession
WanderSession_entity = record { id = λ x. x.id }

instance abbrev pub Feedback_entity : Entity Feedback
Feedback_entity = record { id = λ x. x.id }

instance abbrev pub RuntimeSession_entity : Entity RuntimeSession
RuntimeSession_entity = record { id = λ x. x.id }

pub record RepositoryBundle : Type 0 where
  pub knowledge : List KnowledgeItem
  pub graph : List KnowledgeEdge
  pub seeds : List Seed
  pub candidates : List Candidate
  pub wonders : List Wonder
  pub sessions : List WanderSession
  pub feedback : List Feedback
  pub runtime_sessions : List RuntimeSession
  pub autopilot_campaigns : List AutopilotCampaign

-- `list_for_item`
unfoldable pub touches : ℕ → KnowledgeEdge → Bool
touches item_id edge = edge.source_id == item_id || edge.target_id == item_id

unfoldable pub list_for_item : ℕ → List KnowledgeEdge → List KnowledgeEdge
unfolding touches
list_for_item item_id edges = select (touches item_id) edges

-- `list_for_wonder`
unfoldable pub list_for_wonder : ℕ → List Feedback → List Feedback
list_for_wonder wonder_id feedback = select (λ (f : Feedback). f.wonder_id == wonder_id) feedback

-- `list_for_session`
unfoldable pub list_for_session : ℕ → List Candidate → List Candidate
list_for_session session_id candidates =
    select (λ (c : Candidate). c.session_id == session_id) candidates

-- `x == item_id` for an optional id `x`.
unfoldable pub refers_to : ℕ → Option ℕ → Bool
refers_to item_id none = false
refers_to item_id (some other) = other == item_id

-- `list_for_wander`
unfoldable pub list_for_wander : ℕ → List RuntimeSession → List RuntimeSession
unfolding refers_to
list_for_wander session_id sessions =
    select (λ (r : RuntimeSession). refers_to session_id r.wander_session_id) sessions
