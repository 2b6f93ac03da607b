-- ===== src/Lib.antt =====
-- WanderMind, the backend: a service that lets a session wander over a store of knowledge items and
-- keeps what it finds. This library models the parts of it that decide something.
--
-- The parts and how they interact
--   A wander session (Models) is created and run by the engine (Engine), which walks the states of
--   the cognitive state machine (Machine) and asks its components: the repositories, the patch
--   builder, the retriever, the operators, the synthesizer, the scorer and the reviewer. Each pair
--   of ranked items gets one round: admission by the budgets, the move, the collision, the operator,
--   the synthesis, the score (Scoring), the independent review, a revision, and the promotion to a
--   wonder or a guard. The run ends by `_stop`, by `_complete` or by an exception, which its handler
--   saves. The autopilot (Autopilot) starts one session after another for a campaign, promotes what
--   passes its quality gate (Quality) to knowledge, and is itself watched by the service guardian
--   (Guardian). What is kept lies in the repositories (Repositories); the deletion service removes
--   it with all that refers to it (Deletion), and the graph service adds edges between knowledge
--   items and follows them (IdeaGraph). The synthesizer and the reviewer that the engine asks put a
--   task to an agent runtime, with retries, in a session whose cost is recorded (Runtimes). The same
--   runtime explores a candidate, collects its evidence and criticises it (DeepEvaluation), on which
--   a candidate becomes a wonder; feedback on a wonder sets its status (Wonders). In the service the
--   runs are background tasks of a coordinator (Coordinator). Where no seed is given, a stored one is selected (Seeds).
--
-- Files
--   Models     backend/src/wandermind/models/{enums,session,thought,knowledge,cognitive}.py, with the
--              results of the components of cognitive/{runtime_services,association,retrieval}.py
--   Machine    backend/src/wandermind/cognitive/state_machine.py: LEGAL_TRANSITIONS is
--              `legal_transitions`, the check of `transition` is `transition`
--   Patches    `marginal_novelty_gain` of backend/src/wandermind/cognitive/patches.py
--   Scoring    backend/src/wandermind/cognitive/scoring.py: Score is `WonderScorer.score`, over
--              Subject (its arguments), Terms (what it reads in texts), History (earlier wonders) and
--              Signed (numbers with a sign); Threshold is `ThresholdPolicy`, Vetoes has the proofs
--   Engine     backend/src/wandermind/cognitive/engine.py, one module per stage of `run`: Prepare, Admit,
--              Explore, Review, Surfacing, Promote, Finish and Run, with Pairs for `_candidate_pairs`
--              and `_pinned_pair`, Reason for `_bounded_trace_reason` and Record for `_record` and
--              `_transition`. State has the locals of `run`. Engine.Safety holds its invariant.
--   Quality    backend/src/wandermind/application/autopilot_quality.py
--   Autopilot  backend/src/wandermind/application/autopilot_service.py, with models/autopilot.py (in
--              Models.Campaign): Cycle for `_tick_locked`, `_start_cycle` and `_finalize_cycle`,
--              Promotion for `_promote_wonders`, Reconcile for `_reconcile_generated_knowledge`,
--              Control for what users and the loop do; State has what is asked and written. Accounts,
--              Operations, Sources, Origins, Standing and Overflow, over Frame, hold
--              the proofs.
--   Guardian   backend/src/wandermind/application/service_guardian.py
--   Repositories
--              backend/src/wandermind/repositories/in_memory.py: Store is `InMemoryStore`, Bundle its
--              instances with their queries; Each has loops over a listing, and what they leave
--   Deletion   backend/src/wandermind/application/deletion_service.py
--   IdeaGraph  backend/src/wandermind/application/graph_service.py: `search` is the loop of `lineage`,
--              `graph_view` is `_view`; Walks, Rounds, Lineage, Complete and Links hold the proofs
--   Runtimes   backend/src/wandermind/runtime/base.py with `run_with_retry`; Tracked is
--              infrastructure/tracked_runtime.py; Sanitize, Review and Synthesis are
--              application/candidate_runtime_service.py, and Sessions its handlers and sessions; Charges,
--              Attempts, Opened, Handled and Grounded hold the proofs; Served puts both services into
--              the engine's components, as application/container.py does
--   DeepEvaluation
--              backend/src/wandermind/application/explore_service.py, with application/evaluation.py in
--              Models.Evaluation: Prompts has the tasks, Services the three services and `evaluate`;
--              Evidence, Stages and Sound hold the proofs
--   Wonders    backend/src/wandermind/application/wonder_service.py; Earned and Judged hold
--              the proofs; `is_valid_wonder` is the validation of `Wonder`
--   Coordinator
--              backend/src/wandermind/application/wander_coordinator.py: `begin_task`, `cancel_task`,
--              `fail_task` and `end_task` are the parts of `_execute` around the engine's run; Marks,
--              Steps, Orphans, Recovery and Runs hold the proofs, Runs the order of steps
--   Seeds      backend/src/wandermind/cognitive/seed_selector.py
--   Prelude, Float, Exec  shared: tests, lists, texts and sorting; floats; the monad of methods that
--              change an object and may raise, with its triples
--   Tests      sample data and one instance of each result
--
-- Conventions
--   A method of an object is an action of a state and exception monad whose state survives a raise.
--   Everything that `run` asks of its surroundings is a field of the record `Components`, a function
--   of the number of questions asked before, so that it may answer otherwise on each call; `none` is
--   an exception. What is written to the repositories is listed in `writes`, the newest first.
--   What the autopilot asks is likewise a field of the record `Services`. Its campaign is the stored
--   row, which only a save changes; an object that is changed and not saved is lost, as it is with the
--   database's repositories.
--   A UUID, a point in time and a reference to a source is a number; a metadata dictionary is a record
--   of the keys that the modelled code uses; visited ids are those of the visited path.
--   Of a feedback its value, its metadata and its times are left out: no modelled code reads them.
--   A float is its IEEE 754 bit pattern, for values that are neither negative nor NaN, where the order
--   of the patterns is the order of the values; rounded arithmetic is a parameter (`FloatOps`). The
--   sums of a score, which may fall below zero, have a sign (Scoring.Signed). The run asks for the
--   score as a parameter of `Components`, with the decision.
--   Every loop is over a list and is structural, or counts down what the source bounds it by: the
--   search of a lineage `max_depth`, the attempts of a task the retries that are left. So no fuel is
--   used.
--   A dictionary of a repository is the list of its values in the order of insertion; that no id stands
--   in it twice (IsKeyed) is kept by every call and is a hypothesis of what is said of deletions. Of a
--   listing with a limit of 10000, as the deletions make, it is assumed that the store is no larger.
--
-- Hypotheses
--   OneCall: a synthesis and a review report at most one runtime call each, as the services of
--   application/candidate_runtime_service.py do (Runtimes.Served).
--   IsCheckpoint: what holds of a session that a run may take up, new or saved by an earlier run.
--   CountsOne: a delegate's usage counts one runtime call for a task, or leaves the count out, as the
--   adapters of runtime/ do.
--   Step: a run of the engine saves its session while its task runs, and returns once the session is
--   not pending or running any more, as what is proved of the run says.
--   Of a promotion: the candidate is a stored and valid one, and the id of the new wonder is fresh.
--   `direct` has the ids of the sessions that runs outside the coordinator make (POST /wander, the
--   incubation services); they have no task.
--   IsStored: the session in which a task runs is one of the repository, as `start_session` leaves it.
--
-- Not modelled
--   Of the autopilot: the choice of a pair by its planner, the text that it ingests, the snapshot,
--   and the time of a rejection in an item's metadata. Of the engine: a write to a repository that
--   fails, and a read of the stored session, candidates or wonders that does; the text of an operator's output and of the explanation of a score; the retrieval, the
--   tokens and similarities of texts, the embedding and the runtimes' transports, which are
--   parameters; the HTTP interface, the settings, the conversions of rows, the logging, the
--   asyncio tasks and the benchmarks, which are glue over libraries. The prompts of a synthesis and
--   a review, the JSON texts in the prompts of a deep evaluation, and the validation of a JSON
--   answer are parameters, and the waits between attempts are left out. Incubation and the operators
--   are left out. Of the repositories the searches by text are left out. The run of the engine asks
--   its repositories as parameters, not through Repositories.
pub mod Prelude
pub mod Float
pub mod Exec
pub mod Models
pub mod Machine
pub mod Patches
pub mod Scoring
pub mod Engine
pub mod Quality
pub mod Autopilot
pub mod Guardian
pub mod Repositories
pub mod Deletion
pub mod IdeaGraph
pub mod Runtimes
pub mod DeepEvaluation
pub mod Wonders
pub mod Coordinator
pub mod Seeds
pub mod Tests
