-- ===== src/Tests/Scores.antt =====
-- An instance of what is proved of the scores.
use wander_mind.Prelude.{refl, [], ◌∷◌, none, if◌then◌else◌, ◌==◌}
use wander_mind.Float.{f0_0, f1_0, f0_08, f0_10, f0_18, f0_25, f0_50, f0_60}
use wander_mind.Scoring.Signed.{Arithmetic, pos, greater, lesser, signed_lt}
use wander_mind.Scoring.Threshold.{ThresholdPolicy}
use wander_mind.Scoring.Terms.{TextTools}
use wander_mind.Scoring.Subject.{Scored, default_weights}
use wander_mind.Scoring.Score.{score}
use wander_mind.Scoring.Vetoes.{InUnit, IsSurfaceable, score-IsSurfaceable}
use wander_mind.Tests.Sample.{draft, seed, item}
use wander_mind.Tests.Stores.{candidate}

-- Sums that keep the greater number and products that keep the lesser.
abbrev arithmetic : Arithmetic
arithmetic = record {
  plus = greater;
  minus = λ x y. if signed_lt y x then x else pos f0_0;
  times = lesser;
  over = λ x y. x;
  ratio = λ n m. pos f0_50;
  of_int = λ n. pos (if n == 0 then f0_0 else f1_0);
}

abbrev text_tools : TextTools
text_tools = record {
  casefold = λ t. t;
  normalize_text = λ t. t;
  significant_tokens = λ t. t ∷ [];
  jaccard_similarity = λ t u. f0_25;
}

abbrev scored : Scored
scored = record {
  candidate = candidate;
  result = draft;
  seed = seed;
  source_items = item 1 ∷ item 2 ∷ [];
  association = record { strength = f1_0; distance = f0_60; explanation = [] };
  historical_wonders = [];
  knowledge_items = none;
  feedback_history = [];
}

abbrev low_thresholds : ThresholdPolicy
low_thresholds = record { reject_below = f0_08; explore_above = f0_10; surface_above = f0_18 }

score-IsSurfaceable_example :
    InUnit (score arithmetic text_tools default_weights low_thresholds scored).0
    × IsSurfaceable arithmetic text_tools low_thresholds scored
        (score arithmetic text_tools default_weights low_thresholds scored).0
unfolding score greater lesser signed_lt
score-IsSurfaceable_example =
    score-IsSurfaceable arithmetic text_tools default_weights low_thresholds scored refl
