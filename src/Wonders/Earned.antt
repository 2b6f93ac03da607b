-- ===== src/Wonders/Earned.antt =====
-- What a candidate has that is promoted after a deep evaluation.
use wander_mind.Repositories.Bundle.{RepositoryBundle, Candidate_entity, Wonder_entity}
use wander_mind.Prelude.{
  ℕ, ◌≤◌, ◌<◌, ◌≡◌, refl, sym, ap, ◌∙◌, Bool, true, false, Option, none, some, List, [], ◌∷◌, ◌++◌,
  ◌==◌, is_empty, is_some, ltb, if◌then◌else◌, arith, Bool-cases, inl, inr, length, ◌⊎◌,
}
use mathlib.Core.Path.{subst}
use mathlib.Core.Option.{some-injective}
use wander_mind.Float.{Float, FloatOps, f0_45, f1_0, f2_0}
use wander_mind.Exec.{Result, ok, err, pure, raise, ◌>>=◌, bind_ok}
use wander_mind.Models.Enums.{CandidateStatus}
use wander_mind.Models.Thought.{Candidate, KnowledgeItem, Wonder, WonderScores}
use wander_mind.Models.Evaluation.{
  ExplorerOutput, CriticVerdict, EvaluationMetadata, DeepEvaluationResult,
}
use wander_mind.Repositories.Store.{StoreError, validation_error, get, replaced, create, update}
use wander_mind.Repositories.Store.Laws.{get-replaced, get-append}
use wander_mind.Runtimes.Grounded.{AllTrusted}
use wander_mind.DeepEvaluation.{allowed_refs}
use wander_mind.DeepEvaluation.Stages.{rejects}
use wander_mind.DeepEvaluation.Sound.{IsSound}
use wander_mind.Wonders.{
  set_status, is_pass, confidence_of, wonder_of, expanded, is_valid_wonder, store_valid,
  create_wonder, update_candidate, store_wonder, reject_candidate, promote_scored,
}

-- The evidence behind a wonder, as it is stored.
abbrev pub refs_of_wonder : Option EvaluationMetadata → List ℕ
refs_of_wonder none = []
refs_of_wonder (some metadata) = metadata.source_refs

-- What `Candidate` validates of the fields that go into a wonder.
pub record IsValid (candidate : Candidate) : Type 0 where
  pub stated : 1 ≤ length candidate.statement
  pub statement_room : length candidate.statement ≤ 10000
  pub explained : 1 ≤ length candidate.explanation
  pub explanation_room : length candidate.explanation ≤ 20000
  pub sourced : 1 ≤ length candidate.source_items

module _ (ops : FloatOps) (context : List KnowledgeItem) (max_runtime_calls : ℕ)
    (include_explorer : Bool) (threshold : Float) (candidate : Candidate) (r : DeepEvaluationResult)
    (s : RepositoryBundle) where
  -- Why a wonder was made, and what was stored.
  pub record IsEarned (wonder : Wonder) (s' : RepositoryBundle) : Type 0 where
    pub scored : candidate.scores ≡ some wonder.scores
    pub reached : threshold ≤ wonder.scores.total
    pub passed : r.critic.verdict ≡ CriticVerdict.pass
    pub explained : 1 ≤ length wonder.explanation
    pub explanation_room : length wonder.explanation ≤ 30000
    pub affordable : (if include_explorer then 3 else 2) ≤ max_runtime_calls
    pub sourced : AllTrusted (allowed_refs context) (refs_of_wonder wonder.evaluation)
    pub unsourced :
        is_empty (refs_of_wonder wonder.evaluation) ≡ true
        → (wonder.confidence ≤ f0_45)
          × (wonder.supporting_evidence ≡ [])
          × (wonder.counter_evidence ≡ [])
    pub wonders :
        (k : ℕ) → get k s'.wonders ≡ (if wonder.id == k then some wonder else get k s.wonders)
    pub candidates :
        (k : ℕ)
        → get k s'.candidates ≡ (
            if candidate.id == k
            then some (set_status CandidateStatus.promoted candidate)
            else get k s.candidates)
    pub others : s' ≡ record s { wonders = s'.wonders; candidates = s'.candidates }

  -- Where none was made: nothing is stored below the threshold, and else the candidate is rejected.
  pub record IsRefused (s' : RepositoryBundle) : Type 0 where
    pub refused :
        (scores : WonderScores)
        → candidate.scores ≡ some scores
        → threshold ≤ scores.total
        → (is_pass r.critic.verdict ≡ false)
          × ((k : ℕ)
              → get k s'.candidates ≡ (
                  if candidate.id == k
                  then some (set_status CandidateStatus.rejected candidate)
                  else get k s.candidates))
    pub below :
        ((scores : WonderScores) → candidate.scores ≡ some scores → scores.total < threshold)
        → s' ≡ s
    pub others : s' ≡ record s { candidates = s'.candidates }

  -- Where the wonder that was earned cannot be made: the explorer's idea is empty or too long, or the
  -- average of the scores is above 1.
  pub record IsUnfit (e : StoreError) (s' : RepositoryBundle) : Type 0 where
    pub raised : e ≡ validation_error
    pub unchanged : s' ≡ s
    pub passed : r.critic.verdict ≡ CriticVerdict.pass
    pub scores : WonderScores
    pub scored : candidate.scores ≡ some scores
    pub reached : threshold ≤ scores.total
    pub unfit :
        ((explorer : ExplorerOutput) × (r.explorer ≡ some explorer)
          × ((length explorer.expanded_idea ≡ 0) ⊎ (30000 < length explorer.expanded_idea)))
        ⊎ (f1_0 < ops.over (ops.add scores.coherence scores.evidence_potential) f2_0)

  abbrev pub Promotes : Result StoreError (Option Wonder) × RepositoryBundle → Type 0
  Promotes (ok none, s') = IsRefused s'
  Promotes (ok (some wonder), s') = IsEarned wonder s'
  Promotes (err e, s') = IsUnfit e s'

create_wonder_free :
    (wonder : Wonder) (s : RepositoryBundle)
    → get wonder.id s.wonders ≡ none
    → create_wonder wonder s ≡ (ok tt, record s { wonders = s.wonders ++ wonder ∷ [] })
unfolding create_wonder create
create_wonder_free wonder s free = rw free refl

update_candidate_stored :
    (candidate : Candidate) (s : RepositoryBundle)
    → is_some (get candidate.id s.candidates) ≡ true
    → update_candidate candidate s
      ≡ (ok tt, record s { candidates = replaced candidate s.candidates })
unfolding update_candidate update
update_candidate_stored candidate s stored = rw stored refl

store_wonder_lem :
    (wonder : Wonder) (candidate : Candidate) (s : RepositoryBundle)
    → get wonder.id s.wonders ≡ none
    → is_some (get candidate.id s.candidates) ≡ true
    → store_wonder wonder candidate s ≡ (
      ok (some wonder),
      record s {
        wonders = s.wonders ++ wonder ∷ [];
        candidates = replaced (set_status CandidateStatus.promoted candidate) s.candidates;
      },
    )
unfolding store_wonder set_status pure
store_wonder_lem wonder candidate s free stored =
    let candidate' = set_status CandidateStatus.promoted candidate in
    let s1 = record s { wonders = s.wonders ++ wonder ∷ [] } in
    bind_ok (create_wonder wonder) _ s s1 tt (create_wonder_free wonder s free)
    ∙ bind_ok (update_candidate candidate') (λ u. pure (some wonder)) s1 _ tt
        (update_candidate_stored candidate' s1 stored)

invalid :
    (w : Wonder)
    → is_valid_wonder w ≡ false
    → 1 ≤ length w.statement
    → length w.statement ≤ 10000
    → 1 ≤ length w.source_items
    → ((length w.explanation ≡ 0) ⊎ (30000 < length w.explanation)) ⊎ (f1_0 < w.confidence)
unfolding is_valid_wonder
invalid w h stated room sourced = ground (arith, h, stated, room, sourced)

fits :
    (w : Wonder)
    → is_valid_wonder w ≡ true
    → (1 ≤ length w.explanation) × (length w.explanation ≤ 30000)
unfolding is_valid_wonder
fits w h = ground (arith, h)

module _ (ops : FloatOps) (id now : ℕ) (context : List KnowledgeItem) (n : ℕ) (wanted : Bool)
    (threshold : Float) (candidate : Candidate) (r : DeepEvaluationResult) (s : RepositoryBundle)
    (sound : IsSound context n wanted r) (stored : is_some (get candidate.id s.candidates) ≡ true)
    (free : get id s.wonders ≡ none) (valid : IsValid candidate) where
  stored_as :
      (status : CandidateStatus) (k : ℕ)
      → get k (replaced (set_status status candidate) s.candidates)
        ≡ (if candidate.id == k then some (set_status status candidate) else get k s.candidates)
  unfolding set_status
  stored_as status k =
      get-replaced k (set_status status candidate) s.candidates ∙ ground (arith, stored)

  pass_of : (v : CriticVerdict) → is_pass v ≡ true → v ≡ CriticVerdict.pass
  unfolding is_pass
  pass_of CriticVerdict.pass h = refl
  pass_of CriticVerdict.revise h = cc
  pass_of CriticVerdict.reject h = cc

  passes : (v : CriticVerdict) → is_pass v ≡ true → rejects v ≡ false
  unfolding is_pass rejects
  passes CriticVerdict.pass h = refl
  passes CriticVerdict.revise h = refl
  passes CriticVerdict.reject h = cc

  capped :
      (scores : WonderScores)
      → is_empty r.evidence.source_refs ≡ true
      → confidence_of ops scores r.evidence.source_refs ≤ f0_45
  unfolding confidence_of
  capped scores none_given = rw none_given (ground arith)

  below_of :
      (scores scores' : WonderScores)
      → candidate.scores ≡ some scores
      → candidate.scores ≡ some scores'
      → scores.total ≡ scores'.total
  below_of scores scores' e e' = ap (λ x. x.total) (some-injective scores scores' (sym e ∙ e'))

  unfit_idea :
      (explorer : Option ExplorerOutput)
      → r.explorer ≡ explorer
      → (length (expanded explorer candidate.explanation) ≡ 0)
        ⊎ (30000 < length (expanded explorer candidate.explanation))
      → (x : ExplorerOutput) × (r.explorer ≡ some x)
        × ((length x.expanded_idea ≡ 0) ⊎ (30000 < length x.expanded_idea))
  unfolding expanded
  unfit_idea none e h = absurd (ground (arith, h, valid.explained, valid.explanation_room))
  unfit_idea (some x) e h = (x, e, h)

  above_one :
      (scores : WonderScores)
      → f1_0 < confidence_of ops scores r.evidence.source_refs
      → f1_0 < ops.over (ops.add scores.coherence scores.evidence_potential) f2_0
  unfolding confidence_of
  above_one scores h = ground (arith, h)

  unfit :
      (scores : WonderScores)
      → is_valid_wonder (wonder_of ops id now candidate scores r) ≡ false
      → ((x : ExplorerOutput) × (r.explorer ≡ some x)
          × ((length x.expanded_idea ≡ 0) ⊎ (30000 < length x.expanded_idea)))
        ⊎ (f1_0 < ops.over (ops.add scores.coherence scores.evidence_potential) f2_0)
  unfolding wonder_of
  unfit scores h =
      elim (invalid (wonder_of ops id now candidate scores r) h valid.stated valid.statement_room
        valid.sourced) [
          | inl idea ↦ inl (unfit_idea r.explorer refl idea)
          | inr high ↦ inr (above_one scores high)
        ]

  earned :
      (scores : WonderScores)
      → candidate.scores ≡ some scores
      → ltb scores.total threshold ≡ false
      → is_pass r.critic.verdict ≡ true
      → Promotes ops context n wanted threshold candidate r s
          (store_valid (wonder_of ops id now candidate scores r) candidate s)
  unfolding wonder_of store_valid raise
  earned scores e reached pass =
      let wonder = wonder_of ops id now candidate scores r in
      elim (Bool-cases (is_valid_wonder wonder)) [
        | inr bad ↦ rw bad (record {
          raised = refl;
          unchanged = refl;
          passed = pass_of r.critic.verdict pass;
          scores = scores;
          scored = e;
          reached = ground (arith, reached);
          unfit = unfit scores bad;
        })
        | inl good ↦ rw good (
            subst (Promotes ops context n wanted threshold candidate r s)
              (sym (store_wonder_lem wonder candidate s free stored))
              (record {
                scored = e;
                reached = ground (arith, reached);
                passed = pass_of r.critic.verdict pass;
                explained = (fits wonder good).0;
                explanation_room = (fits wonder good).1;
                affordable = sound.criticised (passes r.critic.verdict pass);
                sourced = sound.sourced.sourced;
                unsourced = λ none_given. (
                  capped scores none_given,
                  (sound.sourced.unsourced none_given).0,
                  (sound.sourced.unsourced none_given).1,
                );
                wonders = λ k. get-append k s.wonders wonder free;
                candidates = stored_as CandidateStatus.promoted;
                others = refl;
              }))
      ]

  promoted :
      (scores : Option WonderScores)
      → candidate.scores ≡ scores
      → Promotes ops context n wanted threshold candidate r s
          (promote_scored ops threshold id now candidate r scores s)
  unfolding promote_scored pure reject_candidate update_candidate update set_status ◌>>=◌
  promoted none e = record {
    refused = λ scores e' reached. absurd (cc e);
    below = λ h. refl;
    others = refl;
  }
  promoted (some scores) e = elim (Bool-cases (ltb scores.total threshold)) [
    | inl below ↦ rw below (record {
      refused = λ scores' e' reached.
          absurd (ground (arith, below, below_of scores scores' e e', reached));
      below = λ h. refl;
      others = refl;
    })
    | inr reached ↦ rw reached (elim (Bool-cases (is_pass r.critic.verdict)) [
      | inl pass ↦ rw pass (earned scores e reached pass)
      | inr fails ↦ rw fails (
          rw stored (record {
            refused = λ scores' e' reached. (fails, stored_as CandidateStatus.rejected);
            below = λ h. absurd (ground (arith, reached, h scores e));
            others = refl;
          }))
    ])
  ]
