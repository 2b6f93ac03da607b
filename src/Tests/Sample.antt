-- ===== src/Tests/Sample.antt =====
-- A small set of components for the tests: three items in two patches, and a reviewer that passes.
use wander_mind.Prelude.{◌+◌, ℕ, true, false, none, some, List, [], ◌∷◌}
use wander_mind.Float.{
  FloatOps, f0_0, f0_10, f0_25, f0_30, f0_40, f0_45, f0_50, f0_60, f0_70, f0_75, f0_80,
}
use wander_mind.Models.Enums.{
  WonderType, SeedStatus, KnowledgeStatus, SessionStatus, CognitiveState, ThresholdDecision,
  Verdict, SeedSource,
}
use wander_mind.Models.Quality.{source_knowledge}
use wander_mind.Models.Budget.{default_budget}
use wander_mind.Models.Thought.{
  KnowledgeItem, Seed, WonderScores, CandidateReviewResult, OperatorResult,
  CandidateSynthesisResult, RetrievedItem,
}
use wander_mind.Models.Session.{WanderSession, SessionMetadata, WanderTrace}
use wander_mind.Engine.Components.{Components}

abbrev pub ops : FloatOps
ops = record {
  add = λ a b. a + b;
  abs_diff = λ a b. a + b;
  minus = λ a b. a;
  times = λ a b. a;
  over = λ a b. a;
  of_int = λ n. n;
}

abbrev pub item : ℕ → KnowledgeItem
item id = record {
  id = id;
  title = [];
  content = [];
  summary = [];
  source = "manual";
  source_ref = none;
  topics = [];
  embedding = none;
  status = KnowledgeStatus.active;
  created_at = 0;
  updated_at = 0;
  importance = f0_50;
  confidence = f0_50;
  epistemic_status = source_knowledge;
  source_wonder_id = none;
  quality_gate = none;
}

abbrev pub seed : Seed
seed = record {
  id = 7;
  content = [];
  source = SeedSource.explicit;
  priority = f0_50;
  status = SeedStatus.pending;
  source_item_id = none;
  last_used_at = none;
  paired_item_ids = none;
  created_at = 0;
}

abbrev pub scores : WonderScores
scores = record {
  novelty = f0_70;
  surprise = f0_70;
  personal_relevance = f0_70;
  coherence = f0_75;
  generativity = f0_70;
  explanatory_power = f0_70;
  evidence_potential = f0_60;
  cross_domain_value = f0_70;
  redundancy = f0_30;
  arbitrariness = f0_40;
  hallucination_risk = f0_25;
  total = f0_70;
}

abbrev pub draft : OperatorResult
draft = record {
  wonder_type = WonderType.connection;
  statement = 65 ∷ [];
  explanation = 66 ∷ [];
  assumptions = [];
  questions = (63 ∷ []) ∷ [];
}

abbrev pub review : CandidateReviewResult
review = record {
  revised_statement = none;
  expanded_idea = none;
  supporting_evidence = (69 ∷ []) ∷ [];
  counter_evidence = (70 ∷ []) ∷ [];
  counter_source_refs = [];
  source_refs = [];
  weaknesses = [];
  alternative_explanations = [];
  supporting_source_refs = 1 ∷ 2 ∷ [];
  uncertainty = f0_45;
  obviousness = f0_10;
  factual_risk = f0_25;
  verdict = Verdict.pass;
  runtime_calls = 1;
}

abbrev pub synthesis : CandidateSynthesisResult
synthesis = record {
  operator_result = draft;
  runtime_calls = 1;
  verified = true;
  provider = none;
  error = none;
}

abbrev pub ranked : List RetrievedItem
ranked =
    record { item = item 1; distance = f0_30; relevance = f0_80 }
    ∷ record { item = item 2; distance = f0_45; relevance = f0_75 }
    ∷ record { item = item 3; distance = f0_60; relevance = f0_70 }
    ∷ []

abbrev pub components : Components
components = record {
  ops = ops;
  now = λ t. t;
  elapsed = λ t. f0_0;
  uuid4 = λ t. 100 + t;
  sha256_hex = λ t. t;
  str_int = λ n. [];
  stored_session = λ t. some (SessionStatus.running, false);
  candidates_for_session = λ t id. [];
  list_wonders = λ t. [];
  list_knowledge = λ t. some (item 1 ∷ item 2 ∷ item 3 ∷ []);
  get_seed = λ t id. some seed;
  embed_text = λ t content. some (1 ∷ []);
  build_patches = λ t s items. some (record { id = 50; label = []; member_ids = 1 ∷ 2 ∷ [] } ∷ []);
  rank = λ t e items query. some ranked;
  analyze = λ t l r. some (record { strength = f0_50; distance = f0_60; explanation = [] });
  select_operator = λ t c previous. some "analogy";
  apply_operator = λ t name c. some draft;
  candidate_synthesizer = some (λ t c d. some synthesis);
  score = λ t c r s items a. some (scores, ThresholdDecision.surface);
  candidate_reviewer = some (λ t c items. some review);
  casefold = λ t. t;
}

abbrev pub fresh_trace : WanderTrace
fresh_trace = record {
  steps = [];
  patches = [];
  operators = [];
  candidate_ids = [];
  final_wonder_ids = [];
  stop_reason = none;
}

abbrev pub fresh_metadata : SessionMetadata
fresh_metadata = record {
  recovery_count = 0;
  cancel_requested = false;
  recovered_after_restart = false;
  patch_membership_count = 0;
  patch_switches = 0;
  wander_moves = 0;
  runtime_calls_used = 0;
  stagnant_candidates = 0;
  quality_guards = [];
  ranked_wonder_count = 0;
}

abbrev pub session : WanderSession
session = record {
  id = 9;
  seed_id = 7;
  state = CognitiveState.idle;
  budget = default_budget;
  status = SessionStatus.pending;
  trace = fresh_trace;
  started_at = none;
  ended_at = none;
  updated_at = 0;
  metadata = fresh_metadata;
}
