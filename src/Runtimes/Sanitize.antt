-- ===== src/Runtimes/Sanitize.antt =====
-- `_sanitize_review` of backend/src/wandermind/application/candidate_runtime_service.py, with the models of
-- the answers that a synthesis and a review expect.
use wander_mind.Prelude.{
  ℕ, zero, suc, Text, text, Bool, true, false, not, ◌&&◌, ◌||◌, Option, none, some, List, [], ◌∷◌,
  ◌++◌, map, length, contains, min, max, ltb, leb, if◌then◌else◌,
}
use wander_mind.Float.{Float, f0_65, f0_80}
use wander_mind.Models.Enums.{Verdict}
use wander_mind.Models.Thought.{Candidate, KnowledgeItem, OperatorContext, OperatorResult}
use wander_mind.Engine.Review.{is_given}
use wander_mind.Quality.{is_original_evidence, distinct_ids, same_text}
use wander_mind.Runtimes.{Adapter}

pub record CandidateSynthesisOutput : Type 0 where
  pub statement : Text
  pub explanation : Text
  pub assumptions : List Text
  pub implications : List Text
  pub questions : List Text

pub record ReviewEvidenceClaim : Type 0 where
  pub claim : Text
  pub source_ref : ℕ

pub record CandidateReviewOutput : Type 0 where
  pub revised_statement : Option Text
  pub expanded_idea : Text
  pub supporting_evidence : List ReviewEvidenceClaim
  pub counter_evidence : List ReviewEvidenceClaim
  pub uncertainty : Float
  pub weaknesses : List Text
  pub obviousness : Float
  pub factual_risk : Float
  pub alternative_explanations : List Text
  pub verdict : Verdict

-- The parts that are not modelled; `knowledge_ref` is the string `knowledge:` with an id.
pub record Reviewing : Type 0 where
  pub adapter : Adapter
  pub knowledge_ref : ℕ → ℕ
  pub review_prompt : Candidate → List KnowledgeItem → Text
  pub synthesis_prompt : OperatorContext → OperatorResult → Text
  pub validate_review : Text → Option CandidateReviewOutput
  pub validate_synthesis : Text → Option CandidateSynthesisOutput

-- `value in values` and `list(dict.fromkeys(values))`
unfoldable pub has_text : List Text → Text → Bool
unfolding same_text
has_text [] t = false
has_text (x ∷ xs) t = let rest = has_text xs t in same_text x t || rest

unfoldable pub distinct_texts : List Text → List Text → List Text
unfolding has_text
distinct_texts seen [] = seen
distinct_texts seen (t ∷ ts) = distinct_texts (if has_text seen t then seen else seen ++ t ∷ []) ts

unfoldable pub rejects : Verdict → Bool
rejects Verdict.reject = true
rejects _ = false

unfoldable pub asks_revision : Verdict → Bool
asks_revision Verdict.revise = true
asks_revision _ = false

unfoldable pub claims_in : List ℕ → List ReviewEvidenceClaim → List ReviewEvidenceClaim
claims_in trusted [] = []
claims_in trusted (c ∷ claims) =
    let rest = claims_in trusted claims in if contains trusted c.source_ref then c ∷ rest else rest

unfoldable pub refs_of : List ReviewEvidenceClaim → List ℕ
unfolding distinct_ids
refs_of claims = distinct_ids [] (map (λ (c : ReviewEvidenceClaim). c.source_ref) claims)

unfoldable pub rejected_for : Text → CandidateReviewOutput → CandidateReviewOutput
unfolding distinct_texts
rejected_for weakness output = record output {
  verdict = Verdict.reject;
  weaknesses = distinct_texts [] (output.weaknesses ++ weakness ∷ []);
}

-- Too few grounded references reject the review. The assignment of the weaknesses is validated by
-- `with_room`.
unfoldable pub check_grounding : ℕ → ℕ → CandidateReviewOutput → CandidateReviewOutput
unfolding rejected_for
check_grounding refs items output =
    if ltb refs (min 2 items)
    then rejected_for (text "The claim lacks grounded support from both independent source items.")
        (record output {
          uncertainty = max output.uncertainty f0_80;
          factual_risk = max output.factual_risk f0_65;
        })
    else output

-- So does a revision without a statement.
unfoldable pub check_revision : CandidateReviewOutput → CandidateReviewOutput
unfolding rejected_for asks_revision is_given
check_revision output =
    if asks_revision output.verdict && not (is_given output.revised_statement)
    then rejected_for (text "The requested revision did not provide a revised claim.") output
    else output

pub record Sanitized : Type 0 where
  pub output : CandidateReviewOutput
  pub supporting_refs : List ℕ
  pub counter_refs : List ℕ

module _ (w : Reviewing) where
  -- `item.source_ref or f"knowledge:{item.id}"`; the reference 0 is the empty string.
  unfoldable pub citation_ref : KnowledgeItem → ℕ
  citation_ref item = ref item.source_ref
    where
      ref : Option ℕ → ℕ
      ref none = w.knowledge_ref item.id
      ref (some zero) = w.knowledge_ref item.id
      ref (some (suc n)) = suc n

  -- `trusted_refs`, with `_evidence_eligible`, which is the same test as `_is_original_evidence`.
  unfoldable pub trusted_refs : List KnowledgeItem → List ℕ
  unfolding citation_ref is_original_evidence
  trusted_refs [] = []
  trusted_refs (item ∷ items) =
      let rest = trusted_refs items in
      if is_original_evidence item then citation_ref item ∷ rest else rest

  unfoldable pub grounded_output :
      List KnowledgeItem → CandidateReviewOutput → CandidateReviewOutput
  unfolding trusted_refs claims_in
  grounded_output context output = record output {
    supporting_evidence = claims_in (trusted_refs context) output.supporting_evidence;
    counter_evidence = claims_in (trusted_refs context) output.counter_evidence;
  }

  -- `_sanitize_review`
  unfoldable pub sanitize_review : CandidateReviewOutput → List KnowledgeItem → Sanitized
  unfolding grounded_output refs_of check_grounding check_revision
  sanitize_review output context =
      let grounded = grounded_output context output in
      let supporting_refs = refs_of grounded.supporting_evidence in
      record {
        output =
            check_revision (check_grounding (length supporting_refs) (length context) grounded);
        supporting_refs = supporting_refs;
        counter_refs = refs_of grounded.counter_evidence;
      }

-- `output.weaknesses` holds at most eight: an assignment of more raises a ValidationError. The checks
-- only add to it, so that the last assignment raises where an earlier one would.
unfoldable pub with_room : Sanitized → Option Sanitized
with_room sanitized = if leb (length sanitized.output.weaknesses) 8 then some sanitized else none
