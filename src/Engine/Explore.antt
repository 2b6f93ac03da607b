-- ===== src/Engine/Explore.antt =====
-- The body of the loop of `run` in backend/src/wandermind/cognitive/engine.py, up to the score: the
-- move, the collision, the operator, the synthesis and the new candidate.
use wander_mind.Prelude.{
  ℕ, ◌+◌, Text, text, String, Bool, true, false, Option, none, some, [], ◌∷◌, ◌++◌, insert_new, ltb,
  if◌then◌else◌, is_empty,
}
use wander_mind.Float.{Float, f0_15, f2_0}
use wander_mind.Exec.{◌>>=◌, ◌>>◌, pure, gets, modify}
use wander_mind.Models.Enums.{CandidateStatus}
use wander_mind.Models.Enums.CognitiveState.{wander, collision, generate, score}
use wander_mind.Models.Thought.{
  KnowledgeItem, RetrievedItem, Association, OperatorContext, OperatorResult,
  CandidateSynthesisResult, Candidate, absent, Seed, KnowledgePatch,
}
use wander_mind.Models.Session.{operator_execution_error, component_error}
use wander_mind.Patches.{marginal_novelty_gain}
use wander_mind.Engine.Components.{Components}
use wander_mind.Engine.State.{RunState, Run, candidate_row, ask, attempt}
use wander_mind.Engine.Record.{no_fields, record_step, transition_to}

-- `source_items=[left.id, right.id]` and what the round has found out about the two.
pub record Found : Type 0 where
  pub left : KnowledgeItem
  pub right : KnowledgeItem
  pub association : Association
  pub novelty_gain : Float

abbrev label_of : Option KnowledgePatch → Text
label_of none = []
label_of (some p) = p.label

-- The counters of a move, in the locals and in the session's metadata.
unfoldable pub count_move : Bool → RunState → RunState
count_move changes_patch s =
    let switches = s.patch_switches + (if changes_patch then 1 else 0) in
    let moves = s.wander_moves + 1 in
    record s {
      patch_switches = switches;
      wander_moves = moves;
      session = record (s.session) {
        metadata = record (s.session.metadata) { patch_switches = switches; wander_moves = moves };
      };
    }

unfoldable pub visit : KnowledgeItem → KnowledgeItem → RunState → RunState
visit left right s = record s {
  visited_path = insert_new (insert_new s.visited_path left.id) right.id;
}

move_reason :
    Bool → Option KnowledgePatch → Option KnowledgePatch → KnowledgeItem → KnowledgeItem → Text
move_reason true from to left right =
    text "controlled remote jump from " ++ label_of from ++ text " to " ++ label_of to
move_reason false from to left right =
    text "selected " ++ left.title ++ text " and " ++ right.title ++ text " within one patch"

unfoldable pub use_operator : String → RunState → RunState
use_operator operator s = record s {
  previous_operators = s.previous_operators ++ operator ∷ [];
  session = record (s.session) {
    trace = record (s.session.trace) { operators = s.session.trace.operators ++ operator ∷ [] };
  };
}

-- `runtime_calls_used += calls`
unfoldable pub spend_calls : ℕ → RunState → RunState
spend_calls calls s = record s { runtime_calls_used = s.runtime_calls_used + calls }

unfoldable pub save_calls : RunState → RunState
save_calls s = record s {
  session = record (s.session) {
    metadata = record (s.session.metadata) { runtime_calls_used = s.runtime_calls_used };
  };
}

-- `candidates.create(candidate)`, and the two lists that it is appended to.
unfoldable pub add_candidate : Candidate → RunState → RunState
add_candidate candidate s = record s {
  candidates = s.candidates ++ candidate ∷ [];
  session = record (s.session) {
    trace = record (s.session.trace) {
      candidate_ids = s.session.trace.candidate_ids ++ candidate.id ∷ [];
    };
  };
  writes = candidate_row candidate ∷ s.writes;
}

unfoldable pub unsynthesized : OperatorResult → CandidateSynthesisResult
unsynthesized operator_result = record {
  operator_result = operator_result;
  runtime_calls = 0;
  verified = false;
  provider = none;
  error = none;
}

abbrev or_text : Option Text → Text → Text
or_text none fallback = fallback
or_text (some t) fallback = if is_empty t then fallback else t

abbrev none_text : Option Text → Text
none_text none = text "None"
none_text (some t) = t

module _ (w : Components) where
  -- From the counters of the move to its step; the result is `novelty_gain`.
  unfoldable pub wander_move :
      Bool
      → Option KnowledgePatch
      → Option KnowledgePatch
      → RetrievedItem
      → RetrievedItem
      → Run Float
  unfolding move_reason
  wander_move changes_patch from to left_result right_result = do
    let left = left_result.item
    let right = right_result.item
    modify (count_move changes_patch)
    s ← gets (λ s. s)
    let novelty_gain =
        marginal_novelty_gain w.ops s.visited_path (left ∷ right ∷ [])
          (w.ops.abs_diff left_result.distance right_result.distance)
    modify (visit left right)
    record_step w wander (if changes_patch then "patch_switch" else "local_wander")
        (move_reason changes_patch from to left right)
        (record no_fields {
          item_ids = left.id ∷ right.id ∷ [];
          distance = some right_result.distance;
          novelty_gain = some novelty_gain;
          relevance =
              some (w.ops.over (w.ops.add left_result.relevance right_result.relevance) f2_0);
        })
    pure novelty_gain

  discard_weak : Run Bool
  discard_weak = do
    transition_to w wander "discard_weak_collision" (text "collision lacked an explainable bridge")
        no_fields
    pure false

  -- The collision of the two items; the result says whether it is strong enough to go on.
  unfoldable pub collide : Found → Run Bool
  unfolding discard_weak
  collide found = do
    let ids = found.left.id ∷ found.right.id ∷ []
    transition_to w collision "detect_collision" found.association.explanation (record no_fields {
      item_ids = ids;
      distance = some found.association.distance;
      novelty_gain = some found.novelty_gain;
      collision_score = some found.association.strength;
    })
    if ltb found.association.strength f0_15 then discard_weak else pure true

  -- The call of the synthesizer with its two steps.
  unfoldable pub synthesize_with :
      (ℕ → OperatorContext → OperatorResult → Option CandidateSynthesisResult)
      → OperatorContext
      → String
      → OperatorResult
      → Run CandidateSynthesisResult
  synthesize_with synthesizer context operator operator_result = do
    let step = record no_fields {
      item_ids = context.left.id ∷ context.right.id ∷ [];
      operator = some operator;
    }
    record_step w generate "agent_synthesis"
        (text "sent the grounded operator draft to the configured Agent Runtime") step
    synthesis ← attempt component_error (λ t. synthesizer t context operator_result)
    modify (spend_calls synthesis.runtime_calls)
    record_step w generate
        (if synthesis.verified then "agent_synthesis_completed" else "agent_synthesis_fallback")
        (if synthesis.verified
          then text "Agent Runtime grounded the candidate via " ++ none_text synthesis.provider
          else text "used the deterministic draft after "
            ++ or_text synthesis.error (text "runtime_unavailable"))
        step
    pure synthesis

  -- A synthesizer is called only while the runtime budget has a call left.
  unfoldable pub synthesize :
      Option (ℕ → OperatorContext → OperatorResult → Option CandidateSynthesisResult)
      → OperatorContext
      → String
      → OperatorResult
      → Run CandidateSynthesisResult
  synthesize none context operator operator_result = pure (unsynthesized operator_result)
  synthesize (some synthesizer) context operator operator_result = do
    s ← gets (λ s. s)
    if ltb s.runtime_calls_used s.session.budget.max_runtime_calls
        then synthesize_with synthesizer context operator operator_result
        else pure (unsynthesized operator_result)

  unfoldable pub new_candidate : Seed → Found → String → OperatorResult → ℕ → RunState → Candidate
  new_candidate seed found operator operator_result id s = record {
    id = id;
    session_id = s.session.id;
    candidate_type = operator_result.wonder_type;
    statement = operator_result.statement;
    explanation = operator_result.explanation;
    seed_id = seed.id;
    source_items = found.left.id ∷ found.right.id ∷ [];
    operator = operator;
    wander_path = s.visited_path;
    scores = none;
    status = CandidateStatus.generated;
    threshold_decision = none;
    runtime_review = absent;
    runtime_revision = none;
    quality_guard = none;
  }

  -- From the choice of an operator to the candidate, which is created but not scored.
  unfoldable pub generate_candidate : Found → Run (Candidate × CandidateSynthesisResult)
  unfolding synthesize synthesize_with new_candidate
  generate_candidate found = do
    s ← gets (λ s. s)
    let context : OperatorContext = record {
      seed = s.seed;
      left = found.left;
      right = found.right;
      association = found.association;
    }
    operator ← attempt component_error (λ t. w.select_operator t context s.previous_operators)
    modify (use_operator operator)
    transition_to w generate "apply_operator" (text "applied " ++ text operator) (record no_fields {
      item_ids = found.left.id ∷ found.right.id ∷ [];
      operator = some operator;
    })
    operator_result ← attempt operator_execution_error (λ t. w.apply_operator t operator context)
    synthesis ← synthesize w.candidate_synthesizer context operator operator_result
    modify save_calls
    id ← ask w.uuid4
    now ← gets (λ s. s)
    let candidate = new_candidate now.seed found operator synthesis.operator_result id now
    modify (add_candidate candidate)
    transition_to w score "score_candidate" candidate.statement
        (record no_fields { candidate_ids = id ∷ [] })
    pure (candidate, synthesis)
