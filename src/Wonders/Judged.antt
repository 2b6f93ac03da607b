-- ===== src/Wonders/Judged.antt =====
-- What feedback on a wonder does to the stores.
use wander_mind.Repositories.Bundle.{RepositoryBundle, Wonder_entity, Feedback_entity}
use wander_mind.Prelude.{
  ℕ, ◌≡◌, refl, true, Option, none, some, List, [], ◌∷◌, ◌++◌, ◌==◌, ◌∙◌, is_some, if◌then◌else◌,
  arith, ◌⊎◌, Bool-cases, inl, inr,
}
use wander_mind.Exec.{Result, ok, err, raise, pure, gets, ◌>>=◌}
use wander_mind.Models.Enums.{FeedbackAction, WonderStatus}
use wander_mind.Models.Thought.{Wonder}
use wander_mind.Models.Graph.{Feedback}
use wander_mind.Repositories.Store.{StoreError, key_error, value_error, get, create, update}
use wander_mind.Repositories.Store.Laws.{get-id, get-replaced}
use wander_mind.Wonders.{
  status_after, judged_wonder, update_wonder, create_feedback, submit_found, submit,
}

-- What an action asks of the status of a wonder.
pub data Asks (action : FeedbackAction) (before : WonderStatus) : WonderStatus → Type 0 where
  keeps :
      (action ≡ FeedbackAction.save) ⊎ (action ≡ FeedbackAction.save_for_later)
      → Asks action before WonderStatus.saved
  drops :
      (action ≡ FeedbackAction.not_interesting)
        ⊎ ((action ≡ FeedbackAction.already_knew)
            ⊎ ((action ≡ FeedbackAction.obvious)
                ⊎ ((action ≡ FeedbackAction.random)
                    ⊎ ((action ≡ FeedbackAction.too_random)
                        ⊎ ((action ≡ FeedbackAction.wrong)
                            ⊎ (action ≡ FeedbackAction.irrelevant))))))
      → Asks action before WonderStatus.dismissed
  continues :
      (action ≡ FeedbackAction.continue)
        ⊎ ((action ≡ FeedbackAction.continue_explore) ⊎ (action ≡ FeedbackAction.inspired_new_idea))
      → Asks action before WonderStatus.incubating
  rates :
      (action ≡ FeedbackAction.interesting) ⊎ (action ≡ FeedbackAction.very_interesting)
      → Asks action before before

status_after-Asks :
    (action : FeedbackAction) (status : WonderStatus)
    → Asks action status (status_after action status)
unfolding status_after
status_after-Asks FeedbackAction.save s = Asks.keeps (inl refl)
status_after-Asks FeedbackAction.save_for_later s = Asks.keeps (inr refl)
status_after-Asks FeedbackAction.not_interesting s = Asks.drops (inl refl)
status_after-Asks FeedbackAction.already_knew s = Asks.drops (inr (inl refl))
status_after-Asks FeedbackAction.obvious s = Asks.drops (inr (inr (inl refl)))
status_after-Asks FeedbackAction.random s = Asks.drops (inr (inr (inr (inl refl))))
status_after-Asks FeedbackAction.too_random s = Asks.drops (inr (inr (inr (inr (inl refl)))))
status_after-Asks FeedbackAction.wrong s = Asks.drops (inr (inr (inr (inr (inr (inl refl))))))
status_after-Asks FeedbackAction.irrelevant s = Asks.drops (inr (inr (inr (inr (inr (inr refl))))))
status_after-Asks FeedbackAction.continue s = Asks.continues (inl refl)
status_after-Asks FeedbackAction.continue_explore s = Asks.continues (inr (inl refl))
status_after-Asks FeedbackAction.inspired_new_idea s = Asks.continues (inr (inr refl))
status_after-Asks FeedbackAction.interesting s = Asks.rates (inl refl)
status_after-Asks FeedbackAction.very_interesting s = Asks.rates (inr refl)

-- The wonder that is stored for one that was found: it has the asked status and the last feedback,
-- and is else as it was.
pub record IsJudged (action : FeedbackAction) (wonder wonder' : Wonder) : Type 0 where
  pub asked : Asks action wonder.status wonder'.status
  pub noted : wonder'.last_feedback ≡ some action
  pub rest :
      wonder' ≡ record wonder { status = wonder'.status; last_feedback = wonder'.last_feedback }

judged_wonder-IsJudged :
    (action : FeedbackAction) (wonder : Wonder)
    → IsJudged action wonder (judged_wonder action wonder)
unfolding judged_wonder
judged_wonder-IsJudged action wonder = record {
  asked = status_after-Asks action wonder.status;
  noted = refl;
  rest = refl;
}

-- The call with what it left, for the wonder that was found.
abbrev pub Judges :
    Feedback
    → Option Wonder
    → RepositoryBundle
    → Result StoreError Feedback × RepositoryBundle
    → Type 0
unfolding get
Judges feedback none s r = r ≡ (err key_error, s)
Judges feedback (some wonder) s (r, s') =
    ((wonder' : Wonder) × IsJudged feedback.action wonder wonder'
      × ((k : ℕ) → get k s'.wonders ≡ (if wonder.id == k then some wonder' else get k s.wonders)))
    × (if is_some (get feedback.id s.feedback)
        then (r ≡ err value_error) × (s'.feedback ≡ s.feedback)
        else (r ≡ ok feedback) × (s'.feedback ≡ s.feedback ++ feedback ∷ []))
    × (s' ≡ record s { wonders = s'.wonders; feedback = s'.feedback })

-- Feedback on a missing wonder raises and changes nothing. A stored one becomes saved when it is to be
-- saved, at once or for later; incubating when it is to be continued or explored, or has inspired an
-- idea; dismissed when it is not interesting, known, obvious, random, too random, wrong or irrelevant;
-- and keeps its status when it is called interesting or very interesting. Its last feedback is the
-- action, and it is else as it was, as every other wonder is. The feedback is appended; where its id
-- is taken the call raises after the change of the wonder, and the feedback is not stored.
pub submit-Judges :
    (feedback : Feedback) (s : RepositoryBundle)
    → Judges feedback (get feedback.wonder_id s.wonders) s (submit feedback s)
unfolding submit judged_wonder raise create update gets ◌>>=◌ submit_found update_wonder
    create_feedback pure
submit-Judges feedback s = found (get feedback.wonder_id s.wonders) refl
  where
    found :
        (o : Option Wonder)
        → get feedback.wonder_id s.wonders ≡ o
        → Judges feedback o s (submit_found feedback o s)
    found none e = refl
    found (some wonder) e =
        let key = get-id feedback.wonder_id s.wonders wonder e in
        let there : is_some (get wonder.id s.wonders) ≡ true = rw key (rw e refl) in
        let others = λ (k : ℕ).
          get-replaced k (judged_wonder feedback.action wonder) s.wonders ∙ replaced_at k there in
        rw there (elim (Bool-cases (is_some (get feedback.id s.feedback))) [
          | inl taken ↦ rw taken (judged _ others, (refl, refl), refl)
          | inr free ↦ rw free (judged _ others, (refl, refl), refl)
        ])
      where
        judged :
            (wonders : List Wonder)
            → ((k : ℕ)
                → get k wonders ≡ (
                    if wonder.id == k
                    then some (judged_wonder feedback.action wonder)
                    else get k s.wonders))
            → (wonder' : Wonder) × IsJudged feedback.action wonder wonder'
              × ((k : ℕ)
                  → get k wonders ≡ (if wonder.id == k then some wonder' else get k s.wonders))
        judged wonders h =
            (judged_wonder feedback.action wonder, judged_wonder-IsJudged feedback.action wonder, h)

        replaced_at :
            (k : ℕ)
            → is_some (get wonder.id s.wonders) ≡ true
            → (if wonder.id == k
                then (if is_some (get k s.wonders)
                    then some (judged_wonder feedback.action wonder)
                    else none)
                else get k s.wonders)
              ≡ (if wonder.id == k
                  then some (judged_wonder feedback.action wonder)
                  else get k s.wonders)
        replaced_at k there = ground (arith, there)
