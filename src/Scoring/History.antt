-- ===== src/Scoring/History.antt =====
-- What the scores of backend/src/wandermind/cognitive/scoring.py read in earlier wonders and their
-- feedback.
use wander_mind.Prelude.{
  ℕ, Text, List, [], ◌∷◌, ◌++◌, length, contains, is_empty, ◌==◌, if◌then◌else◌,
}
use wander_mind.Float.{f0_0, f1_0, f0_35, f0_65}
use wander_mind.Models.Enums.{FeedbackAction}
use wander_mind.Models.Thought.{KnowledgeItem, Candidate, Wonder}
use wander_mind.Models.Graph.{Feedback}
use wander_mind.Quality.{distinct_ids}
use wander_mind.Scoring.Signed.{Signed, pos, neg, Arithmetic, greater, lesser, is_zero}
use wander_mind.Scoring.Terms.{TextTools, spaced, joined}

-- The ids of one list that are in the other.
unfoldable pub common : List ℕ → List ℕ → List ℕ
unfolding contains
common xs [] = []
common xs (y ∷ ys) = let rest = common xs ys in if contains xs y then y ∷ rest else rest

-- 1 for `positive_actions`, -1 for `negative_actions`.
unfoldable pub direction : FeedbackAction → Signed
direction FeedbackAction.interesting = pos f1_0
direction FeedbackAction.very_interesting = pos f1_0
direction FeedbackAction.save = pos f1_0
direction FeedbackAction.save_for_later = pos f1_0
direction FeedbackAction.continue = pos f1_0
direction FeedbackAction.continue_explore = pos f1_0
direction FeedbackAction.inspired_new_idea = pos f1_0
direction _ = neg f1_0

module _ (a : Arithmetic) (w : TextTools) where
  -- `len(a & b) / len(a | b)`, for the sets of two lists.
  unfoldable pub source_overlap : List ℕ → List ℕ → Signed
  unfolding common distinct_ids
  source_overlap xs ys =
      let union = distinct_ids [] (xs ++ ys) in
      if is_empty union
      then pos f0_0
      else a.ratio (length (common (distinct_ids [] xs) (distinct_ids [] ys))) (length union)

  unfoldable pub historical_similarity : Candidate → Text → Wonder → Signed
  unfolding spaced source_overlap
  historical_similarity candidate candidate_text wonder =
      a.times
        (pos (w.jaccard_similarity candidate_text (spaced wonder.statement wonder.explanation)))
        (a.plus (pos f0_35)
          (a.times (pos f0_65) (source_overlap candidate.source_items wonder.source_items)))

  -- `max(..., default=0.0)` over the wonders, the first one's similarity apart.
  unfoldable pub greatest_similarity : Candidate → Text → Signed → List Wonder → Signed
  unfolding greater historical_similarity
  greatest_similarity candidate candidate_text best [] = best
  greatest_similarity candidate candidate_text best (wonder ∷ wonders) =
      greatest_similarity candidate candidate_text
        (greater best (historical_similarity candidate candidate_text wonder)) wonders

  unfoldable pub history_similarity : Candidate → Text → List Wonder → Signed
  unfolding greatest_similarity historical_similarity
  history_similarity candidate candidate_text [] = pos f0_0
  history_similarity candidate candidate_text (wonder ∷ wonders) =
      greatest_similarity candidate candidate_text
        (historical_similarity candidate candidate_text wonder) wonders

  -- The loop of `_feedback_interest`, with its two sums.
  unfoldable pub weigh_feedback :
      Text → Signed → Signed → List (Wonder × Feedback) → Signed × Signed
  unfolding spaced direction
  weigh_feedback current_text weighted total [] = (weighted, total)
  weigh_feedback current_text weighted total ((wonder, feedback) ∷ history) =
      let overlap =
        w.jaccard_similarity current_text (spaced wonder.statement wonder.explanation) in
      let skips = overlap == f0_0 in
      weigh_feedback current_text
        (if skips
          then weighted
          else a.plus weighted (a.times (direction feedback.action) (pos overlap)))
        (if skips then total else a.plus total (pos overlap)) history

  unfoldable pub described : KnowledgeItem → Text
  unfolding spaced joined
  described item = spaced item.title (joined item.topics)

  unfoldable pub described_all : List KnowledgeItem → List Text
  unfolding described
  described_all [] = []
  described_all (item ∷ items) = described item ∷ described_all items

  unfoldable pub feedback_interest : Text → List KnowledgeItem → List (Wonder × Feedback) → Signed
  unfolding weigh_feedback described_all joined greater lesser is_zero
  feedback_interest seed_text items history =
      let (weighted, total) =
        weigh_feedback (joined (seed_text ∷ described_all items)) (pos f0_0) (pos f0_0) history in
      if is_zero total
      then pos f0_0
      else greater (neg f1_0) (lesser (pos f1_0) (a.over weighted total))
