-- ===== src/Engine/Prepare.antt =====
-- What `run` and `create_session` of backend/src/wandermind/cognitive/engine.py set before and during a
-- run: the new session, the locals, the checkpoint that is taken up.
use wander_mind.Prelude.{
  ℕ, ◌+◌, Bool, false, not, Option, none, some, List, [], ◌∷◌, ◌++◌, map, length, is_empty, ◌==◌,
  if◌then◌else◌,
}
use wander_mind.Models.Enums.{KnowledgeStatus, SeedStatus, SessionStatus}
use wander_mind.Models.Enums.CognitiveState.{idle}
use wander_mind.Models.Budget.{WanderBudget, default_budget}
use wander_mind.Models.Thought.{KnowledgeItem, KnowledgePatch, Seed, Candidate, Wonder}
use wander_mind.Models.Session.{WanderSession, WanderTrace, SessionMetadata}
use wander_mind.Engine.State.{RunState, seed_row}

unfoldable pub active_items : List KnowledgeItem → List KnowledgeItem
active_items [] = []
active_items (x ∷ xs) = elim (x.status) [
  | KnowledgeStatus.active ↦ x ∷ active_items xs
  | _ ↦ active_items xs
]

unfoldable pub wonders_of : ℕ → List Wonder → List Wonder
wonders_of session_id [] = []
wonders_of session_id (x ∷ xs) =
    let rest = wonders_of session_id xs in if x.session_id == session_id then x ∷ rest else rest

unfoldable pub wander_paths : List Candidate → List ℕ
wander_paths [] = []
wander_paths (c ∷ cs) = c.wander_path ++ wander_paths cs

unfoldable pub count_members : List KnowledgePatch → ℕ
count_members [] = 0
count_members (p ∷ ps) = length p.member_ids + count_members ps

abbrev empty_trace : WanderTrace
empty_trace = record {
  steps = [];
  patches = [];
  operators = [];
  candidate_ids = [];
  final_wonder_ids = [];
  stop_reason = none;
}

abbrev empty_metadata : SessionMetadata
empty_metadata = record {
  recovery_count = 0;
  cancel_requested = false;
  recovered_after_restart = false;
  patch_membership_count = 0;
  patch_switches = 0;
  wander_moves = 0;
  runtime_calls_used = 0;
  stagnant_candidates = 0;
  quality_guards = [];
  ranked_wonder_count = 0;
}

abbrev or_default : Option WanderBudget → WanderBudget
or_default none = default_budget
or_default (some b) = b

-- `WanderSession(seed_id=..., budget=..., metadata=...)` with no metadata given.
unfoldable pub new_session : ℕ → ℕ → Seed → Option WanderBudget → WanderSession
new_session id now seed budget = record {
  id = id;
  seed_id = seed.id;
  state = idle;
  budget = or_default budget;
  status = SessionStatus.pending;
  trace = empty_trace;
  started_at = none;
  ended_at = none;
  updated_at = now;
  metadata = empty_metadata;
}

-- The locals before `run` has read anything.
unfoldable pub initial_state : Seed → WanderSession → RunState
initial_state seed session = record {
  session = session;
  machine = idle;
  seed = seed;
  candidates = [];
  wonders = [];
  visited_path = [];
  previous_operators = [];
  patch_switches = 0;
  wander_moves = 0;
  runtime_calls_used = 0;
  stagnant_candidates = 0;
  quality_guards = [];
  tick = 0;
  writes = [];
}

unfoldable pub load : List Candidate → List Wonder → RunState → RunState
load candidates wonders s = record s { candidates = candidates; wonders = wonders }

abbrev or_now : Option ℕ → ℕ → ℕ
or_now none now = now
or_now (some t) now = t

-- `resuming`: the session has recorded steps.
unfoldable pub is_resuming : WanderSession → Bool
is_resuming session = not (is_empty session.trace.steps)

-- From the check for a terminal status to the `try`: the session is marked as running, and the
-- counters continue from the metadata of the last checkpoint.
unfoldable pub prepare : ℕ → RunState → RunState
unfolding is_resuming
prepare now s =
    let resuming = is_resuming s.session in
    let m = s.session.metadata in
    record s {
      machine = idle;
      session = record (s.session) {
        state = if resuming then idle else s.session.state;
        status = SessionStatus.running;
        started_at = some (or_now s.session.started_at now);
        ended_at = none;
        metadata = record m {
          recovery_count = m.recovery_count + (if resuming then 1 else 0);
          cancel_requested = false;
        };
      };
      visited_path = wander_paths s.candidates;
      previous_operators = map (λ (c : Candidate). c.operator) s.candidates;
      patch_switches = m.patch_switches;
      wander_moves = m.wander_moves;
      runtime_calls_used = m.runtime_calls_used;
      stagnant_candidates = m.stagnant_candidates;
      quality_guards = [];
    }

unfoldable pub set_patches : List KnowledgePatch → RunState → RunState
set_patches patches s = record s {
  session = record (s.session) {
    trace = record (s.session.trace) { patches = map (λ (p : KnowledgePatch). p.id) patches };
    metadata = record (s.session.metadata) { patch_membership_count = count_members patches };
  };
}

unfoldable pub save_guards : RunState → RunState
save_guards s = record s {
  session = record (s.session) {
    metadata = record (s.session.metadata) { quality_guards = s.quality_guards };
  };
}

unfoldable pub activate_seed : RunState → RunState
activate_seed s =
    let seed = record (s.seed) { status = SeedStatus.active } in
    record s { seed = seed; writes = seed_row seed ∷ s.writes }
