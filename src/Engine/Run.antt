-- ===== src/Engine/Run.antt =====
-- `run` and `create_session` of backend/src/wandermind/cognitive/engine.py, with `_ensure_embeddings`
-- and `_embed_text`.
use wander_mind.Prelude.{
  ℕ, Text, text, Bool, Option, none, some, List, [], ◌∷◌, ◌++◌, map, length, take, ltb, ◌==◌,
  if◌then◌else◌,
}
use wander_mind.Exec.{Result, ok, err, pure, gets, modify, ◌>>=◌, ◌>>◌}
use wander_mind.Models.Enums.CognitiveState.{seeding, wander}
use wander_mind.Models.Budget.{WanderBudget}
use wander_mind.Models.Thought.{KnowledgeItem, KnowledgePatch, Seed, RetrievedItem, Embedding}
use wander_mind.Models.Session.{
  WanderSession, WanderError, embedding_error, value_error, component_error, insufficient_knowledge,
  no_retrieval_candidates, search_space_exhausted, is_terminal_status,
}
use wander_mind.Engine.Components.{Components}
use wander_mind.Engine.State.{
  RunState, Run, session_row, knowledge_row, ask, attempt, write, save_session,
}
use wander_mind.Engine.Record.{no_fields, transition_to}
use wander_mind.Engine.Admit.{
  Ending, break_loop, stop_now, complete_now, Outcome, again, leave, Admission, skip, refuse,
  proceed, processed_pairs, patch_by_item, admit,
}
use wander_mind.Engine.Explore.{Found, wander_move, collide, generate_candidate}
use wander_mind.Engine.Review.{score_candidate, review_candidate, revise_candidate}
use wander_mind.Engine.Promote.{conclude}
use wander_mind.Engine.Finish.{WanderRunResult, stop, complete, handle_error}
use wander_mind.Engine.Pairs.{ItemPair, pinned_pair, candidate_pairs}
use wander_mind.Engine.Prepare.{
  active_items, wonders_of, new_session, initial_state, load, is_resuming, prepare, set_patches,
  save_guards, activate_seed,
}

module _ (w : Components) where
  unfoldable pub embed : Text → Run Embedding
  embed t = attempt embedding_error (λ tick. w.embed_text tick t)

  unfoldable pub embed_item : Option Embedding → KnowledgeItem → Run KnowledgeItem
  unfolding embed
  embed_item (some e) item = pure item
  embed_item none item = do
    e ← embed (item.title ++ text " " ++ item.content)
    now ← ask w.now
    let embedded = record item { embedding = some e; updated_at = now }
    write (knowledge_row embedded)
    pure embedded

  unfoldable pub ensure_embeddings : List KnowledgeItem → Run (List KnowledgeItem)
  unfolding embed_item
  ensure_embeddings [] = pure []
  ensure_embeddings (x ∷ xs) = do
    item ← embed_item x.embedding x
    items ← ensure_embeddings xs
    pure (item ∷ items)

  -- From the operator to the promotion, for a pair whose collision is strong enough.
  unfoldable pub judge_pair : Found → Run Outcome
  judge_pair found = do
    generated ← generate_candidate w found
    first ← score_candidate w found generated.0 generated.1.operator_result
    checked ← review_candidate w w.candidate_reviewer found first
    last ← revise_candidate w found checked.0 checked.1
    conclude w last generated.1.verified checked.1 found.novelty_gain

  -- One round for a pair that the budgets admit.
  unfoldable pub explore_pair :
      List KnowledgePatch → Bool → RetrievedItem → RetrievedItem → Run Outcome
  explore_pair patches changes_patch left_result right_result = do
    let left = left_result.item
    let right = right_result.item
    novelty_gain ←
        wander_move w changes_patch (patch_by_item patches left.id) (patch_by_item patches right.id)
          left_result right_result
    association ← attempt component_error (λ t. w.analyze t left right)
    let found : Found = record {
      left = left;
      right = right;
      association = association;
      novelty_gain = novelty_gain;
    }
    strong ← collide w found
    if strong then judge_pair found else pure again

  unfoldable pub act_on :
      List KnowledgePatch → RetrievedItem → RetrievedItem → Admission → Run Outcome
  act_on patches left right skip = pure again
  act_on patches left right (refuse ending) = pure (leave ending)
  act_on patches left right (proceed changes_patch) = explore_pair patches changes_patch left right

  unfoldable pub round :
      List KnowledgePatch → List (ℕ × ℕ) → RetrievedItem → RetrievedItem → Run Outcome
  unfolding act_on
  round patches processed left right = do
    admission ← admit w patches processed left right
    act_on patches left right admission

  abbrev pub or_next : Run Ending → Outcome → Run Ending
  or_next next again = next
  or_next next (leave ending) = pure ending

  -- The loop over the pairs; its end is the reason it starts with.
  unfoldable pub loop : List KnowledgePatch → List (ℕ × ℕ) → List ItemPair → Run Ending
  loop patches processed [] = pure (break_loop search_space_exhausted)
  loop patches processed ((left, right) ∷ pairs) = do
    outcome ← round patches processed left right
    or_next (loop patches processed pairs) outcome

  unfoldable pub finish : Ending → Run WanderRunResult
  finish (break_loop reason) = do modify save_guards; stop w reason
  finish (stop_now reason) = stop w reason
  finish (complete_now reason) = complete w reason

  unfoldable pub explore_ranked :
      List KnowledgePatch → List KnowledgeItem → List RetrievedItem → Run WanderRunResult
  explore_ranked patches items ranked = do
    s ← gets (λ s. s)
    ending ←
        loop patches (processed_pairs s.candidates)
          (candidate_pairs w.ops ranked (pinned_pair s.seed.paired_item_ids items))
    finish ending

  -- From the patches to the end of the `try`.
  unfoldable pub wander_items : List KnowledgeItem → Run WanderRunResult
  unfolding embed explore_ranked
  wander_items items = do
    s ← gets (λ s. s)
    patches ← attempt component_error (λ t. w.build_patches t s.seed items)
    modify (set_patches patches)
    transition_to w wander "build_patches"
        (text "built " ++ w.str_int (length patches) ++ text " knowledge patches")
        (record no_fields { item_ids = map (λ (x : KnowledgeItem). x.id) (take 5 items) })
    seed_embedding ← embed s.seed.content
    ranked ← attempt component_error (λ t. w.rank t seed_embedding items s.seed.content)
    if ltb (length ranked) 2
        then stop w no_retrieval_candidates
        else explore_ranked patches items ranked

  unfoldable pub embed_and_wander : List KnowledgeItem → Run WanderRunResult
  embed_and_wander items = do embedded ← ensure_embeddings items; wander_items embedded

  -- The body of the `try`.
  unfoldable pub body : Bool → Run WanderRunResult
  unfolding embed_and_wander
  body resuming = do
    s ← gets (λ s. s)
    transition_to w seeding (if resuming then "resume_session" else "select_seed")
        (if resuming then text "resuming from the last durable checkpoint" else s.seed.content)
        no_fields
    modify activate_seed
    knowledge ← attempt component_error w.list_knowledge
    let items = active_items knowledge
    if ltb (length items) 2 then stop w insufficient_knowledge else embed_and_wander items

  -- `except Exception`: the handler, and the same error again.
  abbrev pub rethrow : Result WanderError WanderRunResult → Run WanderRunResult
  rethrow (ok result) s = (ok result, s)
  rethrow (err e) s = (err e, (handle_error w e s).1)

  unfoldable pub run_guarded : Bool → Run WanderRunResult
  run_guarded resuming s = let (result, s') = body resuming s in rethrow result s'

  unfoldable pub start : Run WanderRunResult
  unfolding run_guarded
  start = do
    before ← gets (λ s. s)
    now ← ask w.now
    modify (prepare now)
    save_session
    run_guarded (is_resuming before.session)

  -- A session that has ended is returned as it is.
  unfoldable pub run_session : Run WanderRunResult
  unfolding start
  run_session = do
    s ← gets (λ s. s)
    candidates ← ask (λ t. w.candidates_for_session t s.session.id)
    all_wonders ← ask w.list_wonders
    let wonders = wonders_of s.session.id all_wonders
    modify (load candidates wonders)
    if is_terminal_status s.session.status
        then pure (record { session = s.session; candidates = candidates; wonders = wonders })
        else start

  unfoldable pub create_session : Seed → Option WanderBudget → RunState
  create_session seed budget =
      let session = new_session (w.uuid4 0) (w.now 1) seed budget in
      record (initial_state seed session) { tick = 2; writes = session_row session ∷ [] }

  unfoldable pub run :
      Seed
      → Option WanderBudget
      → Option WanderSession
      → Result WanderError WanderRunResult × RunState
  run seed budget none = run_session (create_session seed budget)
  run seed budget (some session) =
      if session.seed_id == seed.id
      then run_session (initial_state seed session)
      else (err value_error, initial_state seed session)
