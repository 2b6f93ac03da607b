-- ===== src/Quality/Gate.antt =====
-- What a wonder has that the quality gate accepts.
use mathlib.Core.Path.{subst}
use mathlib.Core.Option.{some-injective}
use wander_mind.Prelude.{
  sym, ◌∙◌, none, Option, refl, ◌≡◌, ◌≤◌, ◌↔◌, ◌⊎◌, true, false, some, List, [], ◌∷◌, ◌++◌,
  is_empty, max, arith,
}
use wander_mind.Float.{Float, f1_0}
use wander_mind.Models.Enums.{Verdict, PromotionBasis}
use wander_mind.Models.Quality.{ReviewMetadata}
use wander_mind.Models.Thought.{Wonder}
use wander_mind.Engine.Review.{is_given}
use wander_mind.Quality.{
  AutopilotQualityPolicy, Check, appended, number, grounded_source_count, score_checks,
  verdict_checks, review_checks, evaluate, evaluate_review,
}

-- None of the tests holds.
abbrev pub AllClear : List Check → Type 0
AllClear [] = Unit
AllClear ((b, reason) ∷ checks) = (b ≡ false) × AllClear checks

pub appended-AllClear :
    (checks : List Check) → (is_empty (appended checks) ≡ true) ↔ AllClear checks
unfolding appended
appended-AllClear [] = (λ e. tt, λ h. refl)
appended-AllClear ((true, reason) ∷ checks) = (λ e. ground arith, λ h. ground arith)
appended-AllClear ((false, reason) ∷ checks) =
    let (to, from) = appended-AllClear checks in (λ e. (refl, to e), λ h. from h.1)

pub is_empty-append {ℓ} :
    {A : Type ℓ} (xs ys : List A)
    → (is_empty (xs ++ ys) ≡ true) ↔ ((is_empty xs ≡ true) × (is_empty ys ≡ true))
is_empty-append [] ys = (λ e. (refl, e), λ h. h.1)
is_empty-append (x ∷ xs) ys = (λ e. ground arith, λ h. ground arith)

module _ (p : AutopilotQualityPolicy) where
  pub record IsReviewed (basis : Option PromotionBasis) (review : ReviewMetadata) : Type 0 where
    pub grounded : p.minimum_grounded_sources ≤ grounded_source_count review.supporting_source_refs
    pub uncertainty : number review.uncertainty f1_0 ≤ p.maximum_uncertainty
    pub verdict :
        ((review.verdict ≡ Verdict.pass)
          × (number review.factual_risk f1_0 ≤ p.maximum_factual_risk))
        ⊎ ((review.verdict ≡ Verdict.revise)
            × (basis ≡ some PromotionBasis.runtime_revision)
            × (number review.factual_risk f1_0 ≤ p.maximum_revision_factual_risk)
            × (is_given review.revised_statement ≡ true)
            × (is_given review.expanded_idea ≡ true))

  pub record HasScores (wonder : Wonder) (configured_threshold : Float) : Type 0 where
    pub total : max p.minimum_total configured_threshold ≤ wonder.scores.total
    pub confidence : p.minimum_confidence ≤ wonder.confidence
    pub coherence : p.minimum_coherence ≤ wonder.scores.coherence
    pub evidence_potential : p.minimum_evidence_potential ≤ wonder.scores.evidence_potential
    pub redundancy : wonder.scores.redundancy ≤ p.maximum_redundancy
    pub arbitrariness : wonder.scores.arbitrariness ≤ p.maximum_arbitrariness
    pub hallucination_risk : wonder.scores.hallucination_risk ≤ p.maximum_hallucination_risk
    pub supported : is_empty wonder.supporting_evidence ≡ false
    pub countered : is_empty wonder.counter_evidence ≡ false
    pub questioned : is_empty wonder.questions ≡ false

  pub record IsAcceptable (wonder : Wonder) (configured_threshold : Float) : Type 0 where
    pub scored : HasScores wonder configured_threshold
    pub reviewed :
        (review : ReviewMetadata) × (wonder.runtime_review ≡ some review)
        × IsReviewed wonder.promotion_basis review

  scores_clear :
      (wonder : Wonder) (t : Float) → AllClear (score_checks p wonder t) ↔ HasScores wonder t
  unfolding score_checks
  scores_clear wonder t = (
    λ h. record {
      total = ground (arith, h.0);
      confidence = ground (arith, h.1.0);
      coherence = ground (arith, h.1.1.0);
      evidence_potential = ground (arith, h.1.1.1.0);
      redundancy = ground (arith, h.1.1.1.1.0);
      arbitrariness = ground (arith, h.1.1.1.1.1.0);
      hallucination_risk = ground (arith, h.1.1.1.1.1.1.0);
      supported = ground (arith, h.1.1.1.1.1.1.1.0);
      countered = ground (arith, h.1.1.1.1.1.1.1.1.0);
      questioned = ground (arith, h.1.1.1.1.1.1.1.1.1.0);
    },
    λ h. (
      ground (arith, h.total),
      (
        ground (arith, h.confidence),
        (
          ground (arith, h.coherence),
          (
            ground (arith, h.evidence_potential),
            (
              ground (arith, h.redundancy),
              (
                ground (arith, h.arbitrariness),
                (
                  ground (arith, h.hallucination_risk),
                  (
                    ground (arith, h.supported),
                    (ground (arith, h.countered), (ground (arith, h.questioned), tt)),
                  ),
                ),
              ),
            ),
          ),
        ),
      ),
    ),
  )

  verdict_clear :
      (verdict : Verdict) (basis : Option PromotionBasis) (review : ReviewMetadata)
      → AllClear (verdict_checks p verdict basis review) ↔ (
          ((verdict ≡ Verdict.pass) × (number review.factual_risk f1_0 ≤ p.maximum_factual_risk))
          ⊎ ((verdict ≡ Verdict.revise)
              × (basis ≡ some PromotionBasis.runtime_revision)
              × (number review.factual_risk f1_0 ≤ p.maximum_revision_factual_risk)
              × (is_given review.revised_statement ≡ true)
              × (is_given review.expanded_idea ≡ true)))
  unfolding verdict_checks
  verdict_clear verdict basis review = ground arith

  review_checks_clear :
      (basis : Option PromotionBasis) (review : ReviewMetadata)
      → AllClear (review_checks p basis review) ↔ IsReviewed basis review
  unfolding review_checks
  review_checks_clear basis review =
      let (to, from) = verdict_clear review.verdict basis review in
      (
        λ h. record {
          grounded = ground (arith, h.0);
          uncertainty = ground (arith, h.1.0);
          verdict = to h.1.1;
        },
        λ h. (ground (arith, h.grounded), (ground (arith, h.uncertainty), from h.verdict)),
      )

  accepts_review :
      (wonder : Wonder) (t : Float) (review : ReviewMetadata)
      → ((evaluate_review p wonder t (some review)).accepted ≡ true)
        ↔ (HasScores wonder t × IsReviewed wonder.promotion_basis review)
  unfolding evaluate_review
  accepts_review wonder t review =
      let (split, join) =
        is_empty-append (appended (score_checks p wonder t))
          (appended (review_checks p wonder.promotion_basis review)) in
      let (clear, blank) = appended-AllClear (score_checks p wonder t) in
      let (clear', blank') = appended-AllClear (review_checks p wonder.promotion_basis review) in
      let (to, from) = scores_clear wonder t in
      let (to', from') = review_checks_clear wonder.promotion_basis review in
      (
        λ e. (to (clear (split e).0), to' (clear' (split e).1)),
        λ h. join (blank (from h.0), blank' (from' h.1)),
      )

  accepts_found :
      (wonder : Wonder) (t : Float) (found : Option ReviewMetadata)
      → wonder.runtime_review ≡ found
      → ((evaluate_review p wonder t found).accepted ≡ true) ↔ IsAcceptable wonder t
  unfolding evaluate_review
  accepts_found wonder t none e = (λ absurd. cc, λ h. let (review, same, good) = h.reviewed in cc)
  accepts_found wonder t (some review) e =
      let (to, from) = accepts_review wonder t review in
      (
        λ a. record { scored = (to a).0; reviewed = (review, e, (to a).1) },
        λ h.
            let (other, same, good) = h.reviewed in
            from (
              h.scored,
              subst (IsReviewed wonder.promotion_basis) (some-injective _ _ (sym same ∙ e)) good,
            ),
      )

  -- The gate accepts a wonder exactly if its scores and its confidence are within the policy's limits,
  -- its total reaches both the policy's and the configured floor, it names evidence for and against
  -- and a question, and an independent review with enough grounded sources and little uncertainty
  -- passed it with a low factual risk, or had it revised, at a risk that is lower still.
  pub evaluate_accepts_iff :
      (wonder : Wonder) (configured_threshold : Float)
      → ((evaluate p wonder configured_threshold).accepted ≡ true)
        ↔ IsAcceptable wonder configured_threshold
  unfolding evaluate
  evaluate_accepts_iff wonder t = accepts_found wonder t wonder.runtime_review refl
