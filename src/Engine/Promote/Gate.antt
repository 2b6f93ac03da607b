-- ===== src/Engine/Promote/Gate.antt =====
-- What a candidate has passed when it is promoted.
use wander_mind.Prelude.{
  inl, inr, refl, ◌≡◌, ◌≤◌, ◌<◌, ◌⊎◌, some, none, true, false, Option, Bool, Text, [], ◌∷◌, length,
  Bool-cases, arith,
}
use wander_mind.Float.{f0_35, f0_40, f0_60, f0_75, f0_80, f0_85}
use wander_mind.Models.Enums.{ThresholdDecision, Verdict}
use wander_mind.Models.Thought.{WonderScores, CandidateReviewResult}
use wander_mind.Engine.Review.{distinct, is_given, is_revise, revision_ready}
use wander_mind.Engine.Surfacing.{is_pass, passes, review_repaired, surfaces, review_passed}

-- A text is there and not empty.
abbrev pub IsGiven : Option Text → Type 0
IsGiven none = ⊥
IsGiven (some t) = 1 ≤ length t

-- An independent review that supports a promotion.
pub record IsSupportive (review : CandidateReviewResult) : Type 0 where
  pub risk : review.factual_risk ≤ f0_40
  pub uncertainty : review.uncertainty ≤ f0_60
  pub grounded : 2 ≤ distinct [] review.supporting_source_refs
  pub verdict :
      (review.verdict ≡ Verdict.pass)
      ⊎ ((review.verdict ≡ Verdict.revise)
          × (review.factual_risk ≤ f0_35)
          × IsGiven review.revised_statement
          × IsGiven review.expanded_idea)

pub record IsPromotable (has_reviewer verified framed : Bool) (scores : WonderScores)
    (decision : ThresholdDecision) (review : Option CandidateReviewResult) : Type 0 where
  pub redundancy : scores.redundancy < f0_85
  pub hallucination_risk : scores.hallucination_risk < f0_75
  pub arbitrariness : (scores.arbitrariness < f0_80) ⊎ ((verified ≡ true) × (framed ≡ false))
  pub decided :
      (decision ≡ ThresholdDecision.surface)
      ⊎ ((decision ≡ ThresholdDecision.deep_explore) × (has_reviewer ≡ true))
  pub reviewed :
      (has_reviewer ≡ false) ⊎ ((r : CandidateReviewResult) × (review ≡ some r) × IsSupportive r)

is_pass_of : (v : Verdict) → is_pass v ≡ true → v ≡ Verdict.pass
is_pass_of Verdict.pass h = refl
is_pass_of Verdict.revise h = cc
is_pass_of Verdict.reject h = cc
is_pass_of Verdict.other h = cc

is_revise_of : (v : Verdict) → is_revise v ≡ true → v ≡ Verdict.revise
is_revise_of Verdict.pass h = cc
is_revise_of Verdict.revise h = refl
is_revise_of Verdict.reject h = cc
is_revise_of Verdict.other h = cc

is_given-IsGiven : (t : Option Text) → is_given t ≡ true → IsGiven t
unfolding is_given
is_given-IsGiven none h = cc
is_given-IsGiven (some []) h = cc
is_given-IsGiven (some (c ∷ cs)) h = omega arith

passes-IsSupportive : (r : CandidateReviewResult) → passes r ≡ true → IsSupportive r
unfolding passes
passes-IsSupportive r h = record {
  risk = ground arith;
  uncertainty = ground arith;
  grounded = ground arith;
  verdict = inl (is_pass_of r.verdict (ground arith));
}

repaired-IsSupportive :
    (r : CandidateReviewResult) → revision_ready (some r) ≡ true → IsSupportive r
unfolding revision_ready
repaired-IsSupportive r h = record {
  risk = ground arith;
  uncertainty = ground arith;
  grounded = ground arith;
  verdict = inr (
    is_revise_of r.verdict (ground arith),
    ground arith,
    is_given-IsGiven r.revised_statement (ground arith),
    is_given-IsGiven r.expanded_idea (ground arith),
  );
}

passed-IsSupportive :
    (review : Option CandidateReviewResult) (decision : ThresholdDecision)
    → review_passed true review decision ≡ true
    → (r : CandidateReviewResult) × (review ≡ some r) × IsSupportive r
unfolding review_passed review_repaired
passed-IsSupportive none decision h = cc
passed-IsSupportive (some r) decision h = (
  r,
  refl,
  elim (Bool-cases (passes r)) [
    | inl e ↦ passes-IsSupportive r e
    | inr e ↦ repaired-IsSupportive r (ground arith)
  ],
)

reviewed_or_none :
    (has_reviewer : Bool) (review : Option CandidateReviewResult) (decision : ThresholdDecision)
    → review_passed has_reviewer review decision ≡ true
    → (has_reviewer ≡ false) ⊎ ((r : CandidateReviewResult) × (review ≡ some r) × IsSupportive r)
reviewed_or_none false review decision h = inl refl
reviewed_or_none true review decision h = inr (passed-IsSupportive review decision h)

surfaces-passed :
    (has_reviewer verified framed : Bool) (scores : WonderScores) (decision : ThresholdDecision)
    (review : Option CandidateReviewResult)
    → surfaces has_reviewer verified framed scores decision review ≡ true
    → review_passed has_reviewer review decision ≡ true
unfolding surfaces
surfaces-passed has_reviewer verified framed scores decision review h = ground arith

-- A candidate that is promoted is not redundant and no hallucination by its scores, is not arbitrary
-- unless a verified synthesis of a seed without arbitrary framing excuses it, and was to be surfaced
-- or, by a reviewer, to be explored. Where a reviewer is configured it has been reviewed, with two
-- sources or more, an uncertainty of at most 0.60 and a factual risk of at most 0.40, and the verdict
-- was a pass, or a revision with a statement, an expanded idea and a factual risk of at most 0.35.
pub surfaces-IsPromotable :
    (has_reviewer verified framed : Bool) (scores : WonderScores) (decision : ThresholdDecision)
    (review : Option CandidateReviewResult)
    → surfaces has_reviewer verified framed scores decision review ≡ true
    → IsPromotable has_reviewer verified framed scores decision review
unfolding surfaces
surfaces-IsPromotable has_reviewer verified framed scores decision review h = record {
  redundancy = ground arith;
  hallucination_risk = ground arith;
  arbitrariness = ground arith;
  decided = ground arith;
  reviewed =
      reviewed_or_none has_reviewer review decision
        (surfaces-passed has_reviewer verified framed scores decision review h);
}
