-- ===== src/Scoring/Score.antt =====
-- `WonderScorer.score` of backend/src/wandermind/cognitive/scoring.py. The explanation, which repeats the
-- scores with fixed reasons, is left out.
use wander_mind.Prelude.{Text, Bool, [], length, ltb, if◌then◌else◌}
use wander_mind.Float.{
  Float, f0_0, f1_0, f0_10, f0_12, f0_15, f0_18, f0_20, f0_25, f0_30, f0_35, f0_40, f0_45, f0_50,
  f0_65, f0_80, f0_85, f0_95,
}
use wander_mind.Models.Enums.{ThresholdDecision}
use wander_mind.Models.Thought.{WonderScores}
use wander_mind.Runtimes.Sanitize.{distinct_texts}
use wander_mind.Scoring.Signed.{Signed, pos, Arithmetic, greater, lesser, magnitude, clamp, unit}
use wander_mind.Scoring.Markers.{has_arbitrary_framing}
use wander_mind.Scoring.Threshold.{ThresholdPolicy, final_decision}
use wander_mind.Scoring.Terms.{
  TextTools, spaced, joined, has_future_terms, has_testable_terms, has_absolute_claims,
  has_obviousness_markers, is_direct_restatement, source_anchor_coverage,
}
use wander_mind.Scoring.History.{history_similarity, feedback_interest}
use wander_mind.Scoring.Subject.{ScoreWeights, Scored, source_texts, all_topics, known_or}

module _ (a : Arithmetic) (w : TextTools) where
  infixl 65 ◌⊕◌ ◌⊖◌
  infixl 70 ◌⊗◌ ◌⊘◌
  abbrev ◌⊕◌ : Signed → Signed → Signed
  x ⊕ y = a.plus x y

  abbrev ◌⊖◌ : Signed → Signed → Signed
  x ⊖ y = a.minus x y

  abbrev ◌⊗◌ : Signed → Signed → Signed
  x ⊗ y = a.times x y

  abbrev ◌⊘◌ : Signed → Signed → Signed
  x ⊘ y = a.over x y

  unfoldable pub source_text : Scored → Text
  unfolding joined source_texts
  source_text x = joined (source_texts x.source_items)

  unfoldable pub candidate_text : Scored → Text
  unfolding spaced
  candidate_text x = spaced x.candidate.statement x.candidate.explanation

  unfoldable pub similarity : Text → Text → Signed
  similarity t u = pos (w.jaccard_similarity t u)

  unfoldable pub historical : Scored → Signed
  unfolding history_similarity candidate_text
  historical x = history_similarity a w x.candidate (candidate_text x) x.historical_wonders

  unfoldable pub novelty : Scored → Float
  unfolding clamp historical
  novelty x = clamp (pos f0_65 ⊕ pos f0_35 ⊗ pos x.association.distance ⊖ pos f0_45 ⊗ historical x)

  unfoldable pub surprise : Scored → Float
  unfolding clamp magnitude
  surprise x = clamp (pos f1_0 ⊖ magnitude (pos x.association.distance ⊖ pos f0_65) ⊘ pos f0_65)

  unfoldable pub personal_relevance : Scored → Float
  unfolding clamp greater similarity candidate_text source_text source_anchor_coverage
      feedback_interest
  personal_relevance x = clamp (
      pos f0_35
      ⊕ pos f0_50
        ⊗ greater (similarity (candidate_text x) x.seed.content)
            (similarity (candidate_text x) (source_text x) ⊗ pos f0_50)
      ⊕ pos f0_15 ⊗ source_anchor_coverage a w x.seed.content x.source_items
      ⊕ pos f0_12 ⊗ feedback_interest a w x.seed.content x.source_items x.feedback_history)

  unfoldable pub coherence : Scored → Float
  unfolding clamp unit
  coherence x = clamp (
      pos f0_45
      ⊕ pos f0_45 ⊗ pos x.association.strength
      ⊕ pos f0_10 ⊗ unit (ltb 80 (length x.result.explanation)))

  unfoldable pub question_count : Scored → Signed
  question_count x = a.of_int (length x.result.questions)

  unfoldable pub generativity : Scored → Float
  unfolding clamp lesser unit question_count has_future_terms candidate_text
  generativity x = clamp (
      pos f0_35
      ⊕ lesser (pos f0_45) (question_count x ⊗ pos f0_18)
      ⊕ pos f0_20 ⊗ unit (has_future_terms a w (candidate_text x)))

  unfoldable pub explanatory_power : Scored → Float
  unfolding clamp lesser
  explanatory_power x = clamp (
      pos f0_40
      ⊕ lesser (pos f0_35) (a.ratio (length x.result.explanation) 800)
      ⊕ pos f0_25 ⊗ pos x.association.strength)

  unfoldable pub evidence_potential : Scored → Float
  unfolding clamp unit question_count has_testable_terms candidate_text
  evidence_potential x = clamp (
      pos f0_35
      ⊕ pos f0_20 ⊗ question_count x
      ⊕ pos f0_20 ⊗ unit (has_testable_terms a w (candidate_text x)))

  unfoldable pub cross_domain_value : Scored → Float
  unfolding clamp unit distinct_texts all_topics
  cross_domain_value x = clamp (
      pos f0_30
      ⊕ pos f0_18 ⊗ a.of_int (length (distinct_texts [] (all_topics x.source_items)))
      ⊕ pos f0_30 ⊗ unit (ltb f0_45 x.association.distance))

  unfoldable pub is_restatement : Scored → Bool
  unfolding is_direct_restatement known_or
  is_restatement x =
      is_direct_restatement a w x.seed.content (known_or x.knowledge_items x.source_items)

  unfoldable pub redundancy : Scored → Float
  unfolding clamp greater unit historical similarity source_text has_obviousness_markers
      is_restatement
  redundancy x = clamp (
      greater
        (greater (greater (historical x) (similarity x.seed.content (source_text x)))
          (unit (has_obviousness_markers a w x.seed.content)))
        (pos (if is_restatement x then f0_95 else f0_0)))

  unfoldable pub arbitrariness : Scored → Float
  unfolding clamp greater unit has_obviousness_markers has_arbitrary_framing
  arbitrariness x = clamp (
      greater
        (greater (pos f1_0 ⊖ pos x.association.strength)
          (pos f0_80 ⊗ unit (has_obviousness_markers a w x.seed.content)))
        (unit (has_arbitrary_framing w.casefold x.seed.content)))

  unfoldable pub hallucination_risk : Scored → Float
  unfolding clamp unit question_count has_absolute_claims spaced candidate_text
  hallucination_risk x = clamp (
      pos f0_15
      ⊕ pos f0_85 ⊗ unit (has_absolute_claims a w (spaced x.seed.content (candidate_text x)))
      ⊖ pos f0_10 ⊗ question_count x)

  -- The weighted sum of the eight dimensions, less that of the three penalties.
  unfoldable pub total : ScoreWeights → Scored → Float
  unfolding clamp novelty surprise personal_relevance coherence generativity explanatory_power
      evidence_potential cross_domain_value redundancy arbitrariness hallucination_risk
  total k x = clamp (
      (pos k.novelty ⊗ pos (novelty x)
        ⊕ pos k.surprise ⊗ pos (surprise x)
        ⊕ pos k.personal_relevance ⊗ pos (personal_relevance x)
        ⊕ pos k.coherence ⊗ pos (coherence x)
        ⊕ pos k.generativity ⊗ pos (generativity x)
        ⊕ pos k.explanatory_power ⊗ pos (explanatory_power x)
        ⊕ pos k.evidence_potential ⊗ pos (evidence_potential x)
        ⊕ pos k.cross_domain_value ⊗ pos (cross_domain_value x))
      ⊖ (pos k.redundancy_penalty ⊗ pos (redundancy x)
          ⊕ pos k.arbitrariness_penalty ⊗ pos (arbitrariness x)
          ⊕ pos k.hallucination_risk_penalty ⊗ pos (hallucination_risk x)))

  unfoldable pub scores_of : ScoreWeights → Scored → WonderScores
  unfolding total
  scores_of k x = record {
    novelty = novelty x;
    surprise = surprise x;
    personal_relevance = personal_relevance x;
    coherence = coherence x;
    generativity = generativity x;
    explanatory_power = explanatory_power x;
    evidence_potential = evidence_potential x;
    cross_domain_value = cross_domain_value x;
    redundancy = redundancy x;
    arbitrariness = arbitrariness x;
    hallucination_risk = hallucination_risk x;
    total = total k x;
  }

  -- `WonderScorer.score`
  unfoldable pub score : ScoreWeights → ThresholdPolicy → Scored → WonderScores × ThresholdDecision
  unfolding scores_of final_decision
  score k p x = let scores = scores_of k x in (scores, final_decision p scores)
