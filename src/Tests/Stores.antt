-- ===== src/Tests/Stores.antt =====
-- Instances of what is proved of the stores, of deletion and of the idea graph.
use wander_mind.Prelude.{
  ℕ, ◌≡◌, refl, true, false, none, some, List, [], ◌∷◌, arith, Bool-cases, inl, inr, ◌==◌,
}
use wander_mind.Float.{f0_50}
use wander_mind.Exec.{ok}
use wander_mind.Models.Enums.{RelationType, FeedbackAction, WonderType, CandidateStatus}
use wander_mind.Models.Thought.{Wonder, Candidate, RuntimeReview}
use wander_mind.Models.Graph.{KnowledgeEdge, Feedback}
use wander_mind.Models.Runtime.{RuntimeSession, RuntimeSessionStatus}
use wander_mind.Repositories.Store.{get}
use wander_mind.Repositories.Store.Laws.{IsKeyed}
use wander_mind.Repositories.Store.Refines.{
  Call, create_call, update_call, delete_call, perform_all, specified_all, view,
  perform_all-Refines,
}
use wander_mind.Repositories.Bundle.{
  RepositoryBundle, KnowledgeItem_entity, KnowledgeEdge_entity, Seed_entity, Wonder_entity,
  Candidate_entity, WanderSession_entity, Feedback_entity, RuntimeSession_entity,
}
use wander_mind.Deletion.{delete_knowledge, delete_wonder, delete_session}
use wander_mind.Deletion.Knowledge.{KnowledgeKeyed, KnowledgeGone, delete_knowledge-Gone}
use wander_mind.Deletion.Wonders.{WondersKeyed, WonderGone, delete_wonder-Gone}
use wander_mind.Deletion.Sessions.{SessionKeyed, SessionGone, delete_session-Gone}
use wander_mind.IdeaGraph.Links.{
  create_edge_call, delete_knowledge_call, run_calls, IsLinked, run_calls-IsLinked,
}
use wander_mind.Tests.Sample.{item, seed, session}
use wander_mind.Tests.Pilot.{wonder}

abbrev pub edge : ℕ → ℕ → ℕ → KnowledgeEdge
edge id source target = record {
  id = id;
  source_id = source;
  target_id = target;
  relation_type = RelationType.derived_from;
  weight = f0_50;
  confidence = f0_50;
  created_by = "system";
  wonder_id = none;
}

abbrev pub runtime_session : RuntimeSession
runtime_session = record {
  id = 80;
  provider = "mock";
  purpose = "candidate_review";
  external_session_id = none;
  status = RuntimeSessionStatus.active;
  wander_session_id = some 9;
  last_used_at = 0;
  updated_at = 0;
  cost = record {
    runtime_calls = none;
    failures = none;
    duration_seconds = none;
    input_tokens = none;
    output_tokens = none;
    total_tokens = none;
  };
  last_error = none;
  invalid_wander_session_id = false;
}

abbrev child : Wonder
child = record wonder { id = 61; session_id = 10; parent_wonder_id = some 60 }

abbrev pub candidate : Candidate
candidate = record {
  id = 70;
  session_id = 9;
  candidate_type = WonderType.connection;
  statement = [];
  explanation = [];
  seed_id = 7;
  source_items = [];
  operator = "analogy";
  wander_path = [];
  scores = none;
  status = CandidateStatus.generated;
  threshold_decision = none;
  runtime_review = RuntimeReview.absent;
  runtime_revision = none;
  quality_guard = none;
}

abbrev pub comment : Feedback
comment = record { id = 90; wonder_id = 60; action = FeedbackAction.save; note = none }

-- Items 1 to 3 in a line, a seed of item 1, a wonder of session 9 with a child of session 10.
abbrev pub bundle : RepositoryBundle
bundle = record {
  knowledge = item 1 ∷ item 2 ∷ item 3 ∷ [];
  graph = edge 20 2 1 ∷ edge 21 3 2 ∷ [];
  seeds = record seed { source_item_id = some 1 } ∷ [];
  candidates = candidate ∷ [];
  wonders = wonder ∷ child ∷ [];
  sessions = session ∷ [];
  feedback = comment ∷ [];
  runtime_sessions = runtime_session ∷ [];
  autopilot_campaigns = [];
}

bundle-KnowledgeKeyed : KnowledgeKeyed bundle
bundle-KnowledgeKeyed = record {
  knowledge = (
    ((λ e. omega (arith, e)), ((λ e. omega (arith, e)), tt)),
    (((λ e. omega (arith, e)), tt), (tt, tt)),
  );
  graph = (((λ e. omega (arith, e)), tt), (tt, tt));
  seeds = (tt, tt);
  room = omega arith;
}

bundle-WondersKeyed : WondersKeyed bundle
bundle-WondersKeyed = record {
  wonders = (((λ e. omega (arith, e)), tt), (tt, tt));
  feedback = (tt, tt);
  room = omega arith;
}

bundle-SessionKeyed : SessionKeyed bundle
bundle-SessionKeyed = record {
  wonders = bundle-WondersKeyed;
  candidates = (tt, tt);
  candidate_room = omega arith;
  runtime_sessions = (tt, tt);
  runtime_room = omega arith;
}

abbrev some_calls : List (Call KnowledgeEdge)
some_calls =
    create_call (edge 22 1 3)
    ∷ create_call (edge 22 3 1)
    ∷ update_call (edge 23 1 2)
    ∷ delete_call 20
    ∷ delete_call 20
    ∷ []

perform_all-Refines_example :
    ((perform_all some_calls bundle.graph).0 ≡ (specified_all some_calls (view bundle.graph)).0)
    × (view (perform_all some_calls bundle.graph).1
        ≡ (specified_all some_calls (view bundle.graph)).1)
    × IsKeyed (perform_all some_calls bundle.graph).1
perform_all-Refines_example =
    perform_all-Refines some_calls bundle.graph bundle-KnowledgeKeyed.graph

delete_knowledge-Gone_example :
    ((delete_knowledge 1 bundle).0 ≡ ok true)
    × KnowledgeGone 1 bundle (delete_knowledge 1 bundle).1
    × KnowledgeKeyed (delete_knowledge 1 bundle).1
unfolding get
delete_knowledge-Gone_example = delete_knowledge-Gone 1 bundle bundle-KnowledgeKeyed refl

delete_wonder-Gone_example :
    ((delete_wonder 60 bundle).0 ≡ ok true)
    × WonderGone 60 bundle (delete_wonder 60 bundle).1
    × WondersKeyed (delete_wonder 60 bundle).1
unfolding get
delete_wonder-Gone_example = delete_wonder-Gone 60 bundle bundle-WondersKeyed refl

delete_session-Gone_example :
    ((delete_session 9 bundle).0 ≡ ok true) × SessionGone 9 bundle (delete_session 9 bundle).1
unfolding get
delete_session-Gone_example = delete_session-Gone 9 bundle bundle-SessionKeyed refl

bundle-IsLinked : IsLinked bundle
unfolding get
bundle-IsLinked = record {
  linked = λ k. elim (Bool-cases (20 == k)) [
    | inl e ↦ rw e (refl, refl)
    | inr e ↦ rw e (elim (Bool-cases (21 == k)) [ inl f ↦ rw f (refl, refl) | inr f ↦ rw f tt ])
  ];
  keyed = bundle-KnowledgeKeyed;
}

run_calls-IsLinked_example : IsLinked (
    run_calls
      (create_edge_call (edge 22 1 3)
        ∷ create_edge_call (edge 23 1 4)
        ∷ delete_knowledge_call 2
        ∷ [])
      bundle)
run_calls-IsLinked_example =
    run_calls-IsLinked
      (create_edge_call (edge 22 1 3)
        ∷ create_edge_call (edge 23 1 4)
        ∷ delete_knowledge_call 2
        ∷ [])
      bundle bundle-IsLinked
