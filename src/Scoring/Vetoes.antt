-- ===== src/Scoring/Vetoes.antt =====
-- Seeds that no score brings to the surface.
use wander_mind.Prelude.{◌≤◌, ◌<◌, ◌≡◌, refl, Bool, true, false, if◌then◌else◌, arith}
use wander_mind.Float.{f0_0, f1_0, f0_75, f0_80, f0_85, f0_95}
use wander_mind.Models.Enums.ThresholdDecision.{surface}
use wander_mind.Models.Thought.{WonderScores}
use wander_mind.Scoring.Signed.{
  Signed, pos, Arithmetic, greater, clamp, unit, clamp-le, clamp-greater,
}
use wander_mind.Scoring.Markers.{has_arbitrary_framing}
use wander_mind.Scoring.Threshold.{ThresholdPolicy, final_decision}
use wander_mind.Scoring.Threshold.Laws.{final_decision_surface}
use wander_mind.Scoring.Terms.{TextTools, has_obviousness_markers}
use wander_mind.Scoring.Subject.{ScoreWeights, Scored}
use wander_mind.Scoring.Score.{
  source_text, similarity, historical, is_restatement, novelty, surprise, personal_relevance,
  coherence, generativity, explanatory_power, evidence_potential, cross_domain_value, redundancy,
  arbitrariness, hallucination_risk, total, scores_of, score,
}

-- What `ScoreDetail` and `WonderScores` validate.
pub record InUnit (s : WonderScores) : Type 0 where
  pub novelty : s.novelty ≤ f1_0
  pub surprise : s.surprise ≤ f1_0
  pub personal_relevance : s.personal_relevance ≤ f1_0
  pub coherence : s.coherence ≤ f1_0
  pub generativity : s.generativity ≤ f1_0
  pub explanatory_power : s.explanatory_power ≤ f1_0
  pub evidence_potential : s.evidence_potential ≤ f1_0
  pub cross_domain_value : s.cross_domain_value ≤ f1_0
  pub redundancy : s.redundancy ≤ f1_0
  pub arbitrariness : s.arbitrariness ≤ f1_0
  pub hallucination_risk : s.hallucination_risk ≤ f1_0
  pub total : s.total ≤ f1_0

-- What holds of a candidate that a score brings to the surface.
pub record IsSurfaceable (a : Arithmetic) (w : TextTools) (p : ThresholdPolicy) (x : Scored)
    (s : WonderScores) : Type 0 where
  pub reached : p.surface_above ≤ s.total
  pub redundant : s.redundancy < f0_85
  pub arbitrary : s.arbitrariness < f0_80
  pub risky : s.hallucination_risk < f0_75
  pub generic : has_obviousness_markers a w x.seed.content ≡ false
  pub restated : is_restatement a w x ≡ false
  pub framed : has_arbitrary_framing w.casefold x.seed.content ≡ false

-- The later terms of a maximum bound it from below.
max_of_four :
    (h s o d : Signed)
    → (clamp o ≤ clamp (greater (greater (greater h s) o) d))
      × (clamp d ≤ clamp (greater (greater (greater h s) o) d))
max_of_four h s o d = (
  omega (arith, clamp-greater (greater (greater h s) o) d, clamp-greater (greater h s) o),
  omega (arith, clamp-greater (greater (greater h s) o) d),
)

module _ (a : Arithmetic) (w : TextTools) (x : Scored) where
  -- Each of the terms of the maximum bounds the penalty from below.
  redundancy_bounds :
      (clamp (unit (has_obviousness_markers a w x.seed.content)) ≤ redundancy a w x)
      × (clamp (pos (if is_restatement a w x then f0_95 else f0_0)) ≤ redundancy a w x)
  unfolding redundancy
  redundancy_bounds =
      max_of_four (historical a w x) (similarity a w x.seed.content (source_text a w x))
        (unit (has_obviousness_markers a w x.seed.content))
        (pos (if is_restatement a w x then f0_95 else f0_0))

  arbitrariness_bounds :
      clamp (unit (has_arbitrary_framing w.casefold x.seed.content)) ≤ arbitrariness a w x
  unfolding arbitrariness
  arbitrariness_bounds = omega (
    arith,
    clamp-greater
        (greater (a.minus (pos f1_0) (pos x.association.strength))
          (a.times (pos f0_80) (unit (has_obviousness_markers a w x.seed.content))))
        (unit (has_arbitrary_framing w.casefold x.seed.content)),
  )

  generic_seed : has_obviousness_markers a w x.seed.content ≡ true → f0_85 ≤ redundancy a w x
  unfolding unit clamp
  generic_seed h = ground (arith, redundancy_bounds.0, h)

  restated_seed : is_restatement a w x ≡ true → f0_85 ≤ redundancy a w x
  unfolding clamp
  restated_seed h = ground (arith, redundancy_bounds.1, h)

  framed_seed : has_arbitrary_framing w.casefold x.seed.content ≡ true → f0_80 ≤ arbitrariness a w x
  unfolding unit clamp
  framed_seed h = ground (arith, arbitrariness_bounds, h)

  marked : (b : Bool) → (b ≡ true → ⊥) → b ≡ false
  marked true h = absurd (h refl)
  marked false h = refl

  surfaced :
      (k : ScoreWeights) (p : ThresholdPolicy)
      → final_decision p (scores_of a w k x) ≡ surface
      → IsSurfaceable a w p x (scores_of a w k x)
  unfolding scores_of
  surfaced k p e =
      let (reached, above, redundant, arbitrary, risky) =
        (final_decision_surface p (scores_of a w k x)).0.0 e in
      record {
        reached = reached;
        redundant = redundant;
        arbitrary = arbitrary;
        risky = risky;
        generic = marked _ (λ h. omega (arith, generic_seed h, redundant));
        restated = marked _ (λ h. omega (arith, restated_seed h, redundant));
        framed = marked _ (λ h. omega (arith, framed_seed h, arbitrary));
      }

  scores-InUnit : (k : ScoreWeights) → InUnit (scores_of a w k x)
  unfolding scores_of novelty surprise personal_relevance coherence generativity explanatory_power
      evidence_potential cross_domain_value redundancy arbitrariness hallucination_risk total
  scores-InUnit k = record {
    novelty = clamp-le _;
    surprise = clamp-le _;
    personal_relevance = clamp-le _;
    coherence = clamp-le _;
    generativity = clamp-le _;
    explanatory_power = clamp-le _;
    evidence_potential = clamp-le _;
    cross_domain_value = clamp-le _;
    redundancy = clamp-le _;
    arbitrariness = clamp-le _;
    hallucination_risk = clamp-le _;
    total = clamp-le _;
  }

-- A candidate is brought to the surface only with scores within 0 and 1, a total that reaches the
-- threshold, no penalty at its limit, and a seed that has no marker of a generic statement and no
-- arbitrary framing, and is no question that restates an item's title.
pub score-IsSurfaceable :
    (a : Arithmetic) (w : TextTools) (k : ScoreWeights) (p : ThresholdPolicy) (x : Scored)
    → (score a w k p x).1 ≡ surface
    → InUnit (score a w k p x).0 × IsSurfaceable a w p x (score a w k p x).0
unfolding score
score-IsSurfaceable a w k p x e = (scores-InUnit a w x k, surfaced a w x k p e)
