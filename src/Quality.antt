-- ===== src/Quality.antt =====
-- `AutopilotQualityPolicy` of backend/src/wandermind/application/autopilot_quality.py, and the check
-- of a wonder's sources, `_with_lineage_quality` of application/autopilot_service.py.
pub mod Gate
pub mod Lineage
use wander_mind.Prelude.{
  ℕ, zero, suc, Text, text, String, Bool, true, false, not, ◌&&◌, Option, none, some, List, [], ◌∷◌,
  ◌++◌, length, is_empty, insert_new, max, ltb, if◌then◌else◌, starts_with,
}
use wander_mind.Float.{Float, f0_35, f0_40, f0_45, f0_50, f0_55, f0_57, f0_60, f0_63, f0_70, f1_0}
use wander_mind.Models.Enums.{KnowledgeStatus, Verdict, PromotionBasis}
use wander_mind.Models.Quality.{
  QualityReason, QualityGateResult, QualityReason-discrete, ReviewMetadata, EpistemicStatus,
}
use wander_mind.Models.Thought.{KnowledgeItem, Wonder}
use wander_mind.Engine.Pairs.{find_item}
use wander_mind.Engine.Review.{is_given}
use mathlib.Core.Logic.{ite}

pub record AutopilotQualityPolicy : Type 0 where
  pub minimum_total : Float
  pub minimum_confidence : Float
  pub minimum_coherence : Float
  pub minimum_evidence_potential : Float
  pub maximum_redundancy : Float
  pub maximum_arbitrariness : Float
  pub maximum_hallucination_risk : Float
  pub maximum_uncertainty : Float
  pub maximum_factual_risk : Float
  pub maximum_revision_factual_risk : Float
  pub minimum_grounded_sources : ℕ

unfoldable pub default_policy : AutopilotQualityPolicy
default_policy = record {
  minimum_total = f0_63;
  minimum_confidence = f0_57;
  minimum_coherence = f0_70;
  minimum_evidence_potential = f0_50;
  maximum_redundancy = f0_45;
  maximum_arbitrariness = f0_55;
  maximum_hallucination_risk = f0_35;
  maximum_uncertainty = f0_60;
  maximum_factual_risk = f0_40;
  maximum_revision_factual_risk = f0_35;
  minimum_grounded_sources = 2;
}

-- A test of the source that appends its reason where it holds.
abbrev pub Check : Type 0
Check = Bool × QualityReason

-- The reasons that a sequence of such tests appends.
unfoldable pub appended : List Check → List QualityReason
appended [] = []
appended ((b, reason) ∷ checks) = let rest = appended checks in if b then reason ∷ rest else rest

-- `_number`
unfoldable pub number : Option Float → Float → Float
number none default = default
number (some x) default = x

-- `{str(value) for value in grounded_refs if value}`
unfoldable pub grounded_refs : List ℕ → List ℕ → List ℕ
grounded_refs seen [] = seen
grounded_refs seen (zero ∷ refs) = grounded_refs seen refs
grounded_refs seen (suc n ∷ refs) = grounded_refs (insert_new seen (suc n)) refs

unfoldable pub grounded_source_count : Option (List ℕ) → ℕ
unfolding grounded_refs
grounded_source_count none = 0
grounded_source_count (some refs) = length (grounded_refs [] refs)

module _ (p : AutopilotQualityPolicy) where
  -- The tests before the review is looked up.
  unfoldable pub score_checks : Wonder → Float → List Check
  score_checks wonder configured_threshold =
      (
        ltb wonder.scores.total (max p.minimum_total configured_threshold),
        QualityReason.total_score_below_quality_floor,
      )
      ∷ (ltb wonder.confidence p.minimum_confidence, QualityReason.confidence_too_low)
      ∷ (ltb wonder.scores.coherence p.minimum_coherence, QualityReason.coherence_too_low)
      ∷ (
        ltb wonder.scores.evidence_potential p.minimum_evidence_potential,
        QualityReason.evidence_potential_too_low,
      )
      ∷ (ltb p.maximum_redundancy wonder.scores.redundancy, QualityReason.redundancy_too_high)
      ∷ (
        ltb p.maximum_arbitrariness wonder.scores.arbitrariness,
        QualityReason.arbitrariness_too_high,
      )
      ∷ (
        ltb p.maximum_hallucination_risk wonder.scores.hallucination_risk,
        QualityReason.hallucination_risk_too_high,
      )
      ∷ (is_empty wonder.supporting_evidence, QualityReason.supporting_evidence_missing)
      ∷ (is_empty wonder.counter_evidence, QualityReason.counter_evidence_missing)
      ∷ (is_empty wonder.questions, QualityReason.validation_questions_missing)
      ∷ []

  unfoldable pub verdict_checks : Verdict → Option PromotionBasis → ReviewMetadata → List Check
  unfolding number is_given
  verdict_checks Verdict.pass basis review =
      (
        ltb p.maximum_factual_risk (number review.factual_risk f1_0),
        QualityReason.factual_risk_too_high,
      )
      ∷ []
  verdict_checks Verdict.revise (some PromotionBasis.runtime_revision) review =
      (
        ltb p.maximum_revision_factual_risk (number review.factual_risk f1_0),
        QualityReason.revised_claim_factual_risk_too_high,
      )
      ∷ (
        not (is_given review.revised_statement && is_given review.expanded_idea),
        QualityReason.runtime_revision_missing,
      )
      ∷ []
  verdict_checks _ basis review = (true, QualityReason.independent_review_not_passed) ∷ []

  unfoldable pub review_checks : Option PromotionBasis → ReviewMetadata → List Check
  unfolding number grounded_source_count verdict_checks
  review_checks basis review =
      (
        ltb (grounded_source_count review.supporting_source_refs) p.minimum_grounded_sources,
        QualityReason.insufficient_grounded_sources,
      )
      ∷ (
        ltb p.maximum_uncertainty (number review.uncertainty f1_0),
        QualityReason.uncertainty_too_high,
      )
      ∷ verdict_checks review.verdict basis review

  -- The result with the review that was looked up.
  unfoldable pub evaluate_review : Wonder → Float → Option ReviewMetadata → QualityGateResult
  unfolding score_checks review_checks appended
  evaluate_review wonder configured_threshold none = record {
    accepted = false;
    reasons =
        appended (score_checks wonder configured_threshold)
        ++ QualityReason.independent_review_missing ∷ [];
  }
  evaluate_review wonder configured_threshold (some review) =
      let reasons =
        appended (score_checks wonder configured_threshold)
        ++ appended (review_checks wonder.promotion_basis review) in
      record { accepted = is_empty reasons; reasons = reasons }

  unfoldable pub evaluate : Wonder → Float → QualityGateResult
  unfolding evaluate_review
  evaluate wonder configured_threshold =
      evaluate_review wonder configured_threshold wonder.runtime_review

-- `==` on the strings of `source`.
unfoldable pub same_text : Text → Text → Bool
unfolding starts_with
same_text a b = starts_with a b && starts_with b a

unfoldable pub is_autopilot : String → Bool
unfolding same_text text
is_autopilot source = same_text (text source) (text "autopilot")

unfoldable pub is_active : KnowledgeStatus → Bool
is_active KnowledgeStatus.active = true
is_active _ = false

-- `epistemic_status not in {...}`
unfoldable pub is_original_status : EpistemicStatus → Bool
is_original_status EpistemicStatus.reviewed_hypothesis = false
is_original_status EpistemicStatus.quality_rejected = false
is_original_status EpistemicStatus.encoding_corrupted = false
is_original_status _ = true

-- `_is_original_evidence`
unfoldable pub is_original_evidence : KnowledgeItem → Bool
unfolding is_active is_autopilot is_original_status
is_original_evidence item =
    is_active item.status
    && not (is_autopilot item.source)
    && is_original_status item.epistemic_status

-- `list(dict.fromkeys(ids))`
unfoldable pub distinct_ids : List ℕ → List ℕ → List ℕ
distinct_ids seen [] = seen
distinct_ids seen (x ∷ xs) = distinct_ids (insert_new seen x) xs

unfoldable pub has_reason : List QualityReason → QualityReason → Bool
has_reason [] r = false
has_reason (x ∷ xs) r = let rest = has_reason xs r in ite (QualityReason-discrete x r) true rest

-- `dict.fromkeys(reasons)`
unfoldable pub distinct_reasons : List QualityReason → List QualityReason → List QualityReason
unfolding has_reason
distinct_reasons seen [] = seen
distinct_reasons seen (r ∷ rs) =
    let old = distinct_reasons seen rs in
    let new = distinct_reasons (seen ++ r ∷ []) rs in if has_reason seen r then old else new

unfoldable pub source_checks : Option KnowledgeItem → List Check
unfolding is_original_evidence
source_checks none = (true, QualityReason.source_knowledge_missing) ∷ []
source_checks (some source) =
    (not (is_original_evidence source), QualityReason.source_lineage_not_original) ∷ []

unfoldable pub lineage_checks : List KnowledgeItem → List ℕ → List Check
unfolding source_checks find_item
lineage_checks knowledge [] = []
lineage_checks knowledge (id ∷ ids) =
    source_checks (find_item knowledge id) ++ lineage_checks knowledge ids

-- `_with_lineage_quality`
unfoldable pub with_lineage_quality :
    QualityGateResult → Wonder → List KnowledgeItem → QualityGateResult
unfolding distinct_ids distinct_reasons lineage_checks appended
with_lineage_quality quality wonder knowledge =
    let source_ids = distinct_ids [] wonder.source_items in
    let reasons =
      quality.reasons
      ++ appended (
          (ltb (length source_ids) 2, QualityReason.insufficient_source_lineage)
          ∷ lineage_checks knowledge source_ids) in
    let unique_reasons = distinct_reasons [] reasons in
    record { accepted = is_empty unique_reasons; reasons = unique_reasons }
