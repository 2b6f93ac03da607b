-- ===== src/Tests/Pilot.antt =====
-- Instances of what is proved of the quality gate and the autopilot.
use wander_mind.Autopilot.Sources.{AllSound, promote_wonders-AllSound}
use wander_mind.Autopilot.Promotion.{promote_wonders}
use wander_mind.Prelude.{
  insert_new, ℕ, refl, ◌≡◌, ◌≤◌, ◌↔◌, ◌+◌, true, false, none, some, [], ◌∷◌, length, arith, Text,
  text,
}
use wander_mind.Float.{f0_25, f0_58, f0_70, f5_0}
use wander_mind.Models.Enums.{
  WonderType, WonderStatus, PromotionBasis, Verdict, AutopilotStatus, SessionStatus,
}
use wander_mind.Models.Budget.{default_budget}
use wander_mind.Models.Quality.{ReviewMetadata}
use wander_mind.Models.Thought.{Wonder}
use wander_mind.Models.Session.{WanderSession}
use wander_mind.Models.Campaign.{AutopilotCampaign, empty_metadata}
use wander_mind.Quality.{default_policy, evaluate, with_lineage_quality, distinct_ids}
use wander_mind.Quality.Gate.{IsAcceptable, evaluate_accepts_iff}
use wander_mind.Quality.Lineage.{AllOriginal, with_lineage_quality_accepts_iff}
use wander_mind.Autopilot.State.{Services, AutopilotState, AutopilotError, Ingested}
use wander_mind.Autopilot.Control.{poll}
use wander_mind.Autopilot.Accounts.{Accounted}
use wander_mind.Autopilot.Operations.{PilotOperation, perform_all, perform_all-Accounted}
use wander_mind.Autopilot.Overflow.{IsStuck, poll-IsStuck}
use wander_mind.Exec.{ok}
use wander_mind.Autopilot.Standing.{Reconciles, reconcile_each-Reconciles}
use wander_mind.Autopilot.Reconcile.{reconcile_each}
use wander_mind.Models.Thought.{KnowledgeItem}
use wander_mind.Tests.Sample.{ops, item, session, scores}

abbrev stored_review : ReviewMetadata
stored_review = record {
  verdict = Verdict.pass;
  uncertainty = some f0_25;
  factual_risk = some f0_25;
  supporting_source_refs = some (1 ∷ 2 ∷ []);
  revised_statement = none;
  expanded_idea = none;
}

abbrev pub wonder : Wonder
wonder = record {
  id = 60;
  session_id = 9;
  seed_id = 7;
  candidate_id = none;
  wonder_type = WonderType.connection;
  statement = 65 ∷ [];
  explanation = 66 ∷ [];
  why_interesting = 67 ∷ [];
  source_items = 1 ∷ 2 ∷ [];
  connection_path = [];
  supporting_evidence = (68 ∷ []) ∷ [];
  counter_evidence = (69 ∷ []) ∷ [];
  assumptions = [];
  questions = (63 ∷ []) ∷ [];
  scores = scores;
  confidence = f0_70;
  status = WonderStatus.active;
  parent_wonder_id = none;
  runtime_review = some stored_review;
  promotion_basis = some PromotionBasis.runtime_review;
  evaluation = none;
  original_statement = none;
  autopilot_promoted_knowledge_id = none;
  autopilot_quality_gate = none;
  autopilot_promotion_skipped = none;
  autopilot_promotion_retracted = false;
  autopilot_campaign_id = none;
  last_feedback = none;
  child_wonder_id = none;
  created_at = 0;
}

evaluate_accepts_iff_example :
    ((evaluate default_policy wonder f0_58).accepted ≡ true)
    ↔ IsAcceptable default_policy wonder f0_58
evaluate_accepts_iff_example = evaluate_accepts_iff default_policy wonder f0_58

with_lineage_quality_accepts_iff_example :
    ((with_lineage_quality
        (evaluate default_policy wonder f0_58)
        wonder
        (item 1 ∷ item 2 ∷ [])).accepted
      ≡ true)
    ↔ (IsAcceptable default_policy wonder f0_58
        × (2 ≤ length (distinct_ids [] wonder.source_items))
        × AllOriginal (item 1 ∷ item 2 ∷ []) (distinct_ids [] wonder.source_items))
with_lineage_quality_accepts_iff_example =
    with_lineage_quality_accepts_iff default_policy wonder f0_58 (item 1 ∷ item 2 ∷ [])

-- The gate lets the sample through.
accepted_wonder :
    (with_lineage_quality
      (evaluate default_policy wonder f0_58)
      wonder
      (item 1 ∷ item 2 ∷ [])).accepted
    ≡ true
unfolding with_lineage_quality evaluate default_policy insert_new
accepted_wonder = refl

abbrev failed_session : WanderSession
failed_session = record session { status = SessionStatus.failed; ended_at = some 5 }

abbrev services : Services
services = record {
  ops = ops;
  quality_policy = default_policy;
  promotion_threshold = f0_58;
  cycle_delay_seconds = f5_0;
  objective = 65 ∷ [];
  budget = none;
  utc_now = λ t. t;
  uuid4 = λ t. 100 + t;
  after = λ t d. t + d;
  get_session = λ t id. some failed_session;
  is_active = λ t id. false;
  plan = λ t c. some (record { id = 7; mode = 66 ∷ []; pair_key = 67 ∷ [] });
  create_session = λ t s b. some 9;
  candidate_count = λ t id. 3;
  list_wonders = λ t. wonder ∷ [];
  list_knowledge = λ t. item 1 ∷ item 2 ∷ [];
  runtime_calls = λ t id. 4;
  ingest_text = λ t w q. Ingested.stored (item 70);
}

abbrev campaign : AutopilotCampaign
campaign = record {
  id = 80;
  objective = 65 ∷ [];
  status = AutopilotStatus.active;
  budget = default_budget;
  current_session_id = some 9;
  cycles_started = 1500;
  cycles_completed = 1499;
  total_candidates = 0;
  total_wonders = 0;
  total_runtime_calls = 0;
  promoted_knowledge_count = 0;
  consecutive_failures = 1023;
  started_at = 0;
  last_cycle_started_at = none;
  last_cycle_completed_at = none;
  next_cycle_at = none;
  last_error = none;
  metadata = empty_metadata;
  updated_at = 0;
}

abbrev stored : AutopilotState
stored = record { tick = 0; campaign = some campaign; writes = [] }

abbrev message : AutopilotError → Text
message e = text "OverflowError"

perform_all-Accounted_example :
    Accounted
      (perform_all services message
        (PilotOperation.round ∷ PilotOperation.pause ∷ PilotOperation.resume none none ∷ [])
        stored).campaign
perform_all-Accounted_example =
    perform_all-Accounted services message
      (PilotOperation.round ∷ PilotOperation.pause ∷ PilotOperation.resume none none ∷ []) stored
      (omega arith)

poll-IsStuck_example : IsStuck services message campaign (poll services message stored).1
poll-IsStuck_example =
    poll-IsStuck services message campaign 9 failed_session stored refl refl refl refl refl
      (omega arith)

promote_wonders-AllSound_example :
    AllSound services
      (item 1 ∷ item 2 ∷ [])
      (promote_wonders services 80 (wonder ∷ []) stored).1.writes
promote_wonders-AllSound_example = promote_wonders-AllSound services 80 (wonder ∷ []) stored refl

abbrev generated : KnowledgeItem
generated = record (item 70) { source = "autopilot"; source_wonder_id = some 60 }

reconcile_each-Reconciles_example :
    (n : ℕ) × (m : ℕ) × ((reconcile_each services
        (item 1 ∷ item 2 ∷ [])
        (wonder ∷ [])
        (generated ∷ [])
        stored).0
      ≡ ok (n, m))
    × Reconciles services
        (item 1 ∷ item 2 ∷ [])
        (wonder ∷ [])
        (generated ∷ [])
        stored.writes
        n
        m
        (reconcile_each services
          (item 1 ∷ item 2 ∷ [])
          (wonder ∷ [])
          (generated ∷ [])
          stored).1.writes
reconcile_each-Reconciles_example =
    reconcile_each-Reconciles services (item 1 ∷ item 2 ∷ []) (wonder ∷ []) (generated ∷ []) stored
