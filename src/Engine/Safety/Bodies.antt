-- ===== src/Engine/Safety/Bodies.antt =====
-- The body of the `try` of `run`: every way through it ends as `_stop`, `_complete` or a legal raise.
use wander_mind.Engine.Safety.Invariant.{At}
use wander_mind.Models.Session.{StopReason}
use wander_mind.Engine.Safety.Explored.{OneCall}
use wander_mind.Engine.Components.{Components}
use wander_mind.Models.Budget.{WanderBudget}
use wander_mind.Engine.Safety.Finished.{stop-Moves, complete-Moves, Finished}
use wander_mind.Engine.Safety.Rounds.{loop-Moves}
use wander_mind.Engine.State.{RunState}
use wander_mind.Engine.Admit.{stop_now, break_loop, complete_now, Ending}
use wander_mind.Engine.Finish.{is_completed, WanderRunResult}
use wander_mind.Machine.{legal_transitions}
use wander_mind.Models.Thought.{RetrievedItem, KnowledgePatch, Embedding, KnowledgeItem}
use wander_mind.Engine.Safety.Moves.{
  Moves, ask-Moves, transition_to-Moves, write-Moves, left_from, gets-Moves, attempt-Moves,
  modify-Moves,
}
use wander_mind.Engine.Run.{
  explore_ranked, ensure_embeddings, embed_item, embed_and_wander, wander_items, finish, embed,
  body,
}
use wander_mind.Engine.Prepare.{save_guards, set_patches, activate_seed, active_items}
use wander_mind.Prelude.{
  true, false, ◌⊎◌, inl, inr, refl, ◌≡◌, ◌∷◌, [], none, some, Option, List, Bool, arith, length,
  ltb, if◌then◌else◌,
}
use wander_mind.Exec.Triple.{Triple-bind, Triple-pure, Triple-if, Triple-post}
use wander_mind.Models.Enums.CognitiveState.{idle, seeding, wander}
use wander_mind.Models.Enums.{SessionStatus}

-- A run ends with the status that goes with its reason.
abbrev pub final_status : StopReason → SessionStatus
final_status reason = if is_completed reason then SessionStatus.completed else SessionStatus.stopped

-- A result with some reason.
pub record Returned (b : WanderBudget) (result : WanderRunResult) (s : RunState) : Type 0 where
  pub reason : StopReason
  pub status : SessionStatus
  pub not_cut : (status ≡ SessionStatus.completed) ⊎ (status ≡ SessionStatus.stopped)
  pub finished : Finished b status reason result s

completed_or_stopped :
    (completed : Bool)
    → ((if completed then SessionStatus.completed else SessionStatus.stopped)
        ≡ SessionStatus.completed)
      ⊎ ((if completed then SessionStatus.completed else SessionStatus.stopped)
          ≡ SessionStatus.stopped)
completed_or_stopped true = inl refl
completed_or_stopped false = inr refl

returned :
    {b : WanderBudget} (reason : StopReason) (result : WanderRunResult) (s : RunState)
    → Finished b (final_status reason) reason result s
    → Returned b result s
returned reason result s h = record {
  reason = reason;
  status = final_status reason;
  not_cut = completed_or_stopped (is_completed reason);
  finished = h;
}

module _ (w : Components) {b : WanderBudget} where
  set :
      (patches : List KnowledgePatch) (s : RunState)
      → At b (0, 0) seeding s
      → At b (0, 0) seeding (set_patches patches s)
  unfolding set_patches
  set patches s h = ground arith

  guards : (s : RunState) → At b (0, 0) wander s → At b (0, 0) wander (save_guards s)
  unfolding save_guards
  guards s h = ground arith

  seed_used : (s : RunState) → At b (0, 0) seeding s → At b (0, 0) seeding (activate_seed s)
  unfolding activate_seed
  seed_used s h = ground arith

  finish-Moves :
      (ending : Ending) → Moves b (0, 0) (left_from ending) (finish w ending) (Returned b)
  unfolding finish legal_transitions
  finish-Moves (break_loop reason) =
      Triple-bind _ _ _ _ (modify-Moves save_guards guards)
        λ _. Triple-post _ _ _ (returned reason) (stop-Moves w wander reason refl)
  finish-Moves (stop_now reason) =
      Triple-post _ _ _ (returned reason) (stop-Moves w wander reason refl)
  finish-Moves (complete_now reason) =
      Triple-post _ _ _
        (λ result s h. record {
          reason = reason;
          status = SessionStatus.completed;
          not_cut = inl refl;
          finished = h;
        })
        (complete-Moves w reason)

  embed_item-Moves :
      (e : Option Embedding) (item : KnowledgeItem)
      → Moves b (0, 0) seeding (embed_item w e item) (λ _. At b (0, 0) seeding)
  unfolding embed_item embed legal_transitions
  embed_item-Moves (some e) item = Triple-pure _ _ (λ s h. h)
  embed_item-Moves none item = Triple-bind _ _ _ _ (attempt-Moves _ _ (λ e. cc) refl) λ e.
      Triple-bind _ _ _ _ (ask-Moves w.now)
        λ now. Triple-bind _ _ _ _ (write-Moves _) λ _. Triple-pure _ _ (λ s h. h)

  ensure_embeddings-Moves :
      (items : List KnowledgeItem)
      → Moves b (0, 0) seeding (ensure_embeddings w items) (λ _. At b (0, 0) seeding)
  unfolding ensure_embeddings
  ensure_embeddings-Moves [] = Triple-pure _ _ (λ s h. h)
  ensure_embeddings-Moves (x ∷ xs) =
      Triple-bind _ _ _ _ (embed_item-Moves x.embedding x)
        λ item. Triple-bind _ _ _ _ (ensure_embeddings-Moves xs) λ items. Triple-pure _ _ (λ s h. h)

module _ (w : Components) {b : WanderBudget} (one : OneCall w) where
  explore_ranked-Moves :
      (patches : List KnowledgePatch) (items : List KnowledgeItem) (ranked : List RetrievedItem)
      → Moves b (0, 0) wander (explore_ranked w patches items ranked) (Returned b)
  unfolding explore_ranked
  explore_ranked-Moves patches items ranked =
      Triple-bind _ _ _ _ gets-Moves
        λ s. Triple-bind _ _ _ _ (loop-Moves w one patches _ _) λ ending. finish-Moves w ending

  wander_items-Moves :
      (items : List KnowledgeItem) → Moves b (0, 0) seeding (wander_items w items) (Returned b)
  unfolding wander_items embed legal_transitions
  wander_items-Moves items = Triple-bind _ _ _ _ gets-Moves λ s.
      Triple-bind _ _ _ _ (attempt-Moves _ _ (λ e. cc) refl) λ patches.
        Triple-bind _ _ _ _ (modify-Moves (set_patches patches) (set w patches)) λ _.
          Triple-bind _ _ _ _ (transition_to-Moves w wander _ _ _ refl) λ _.
            Triple-bind _ _ _ _ (attempt-Moves _ _ (λ e. cc) refl) λ seed_embedding.
              Triple-bind _ _ _ _ (attempt-Moves _ _ (λ e. cc) refl) λ ranked.
                Triple-if _ (ltb (length ranked) 2) _ _
                  (λ _. Triple-post _ _ _ (returned _) (stop-Moves w wander _ refl))
                  (λ _. explore_ranked-Moves patches items _)

  -- From `idle`, the body returns a session that has ended, or raises where `failed` is legal.
  pub body-Moves : (resuming : Bool) → Moves b (0, 0) idle (body w resuming) (Returned b)
  unfolding body embed_and_wander legal_transitions
  body-Moves resuming = Triple-bind _ _ _ _ gets-Moves λ s.
      Triple-bind _ _ _ _ (transition_to-Moves w seeding _ _ _ refl) λ _.
        Triple-bind _ _ _ _ (modify-Moves activate_seed (seed_used w)) λ _.
          Triple-bind _ _ _ _ (attempt-Moves _ _ (λ e. cc) refl) λ knowledge.
            Triple-if _ (ltb (length (active_items knowledge)) 2) _ _
              (λ _. Triple-post _ _ _ (returned _) (stop-Moves w seeding _ refl))
              (λ _.
                Triple-bind _ _ _ _ (ensure_embeddings-Moves w _) λ items. wander_items-Moves items)
