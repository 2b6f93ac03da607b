-- ===== src/Scoring/Terms.antt =====
-- What the scores of backend/src/wandermind/cognitive/scoring.py read in texts and sources.
use wander_mind.Prelude.{
  ℕ, ◌+◌, Text, text, Bool, false, ◌&&◌, ◌||◌, List, [], ◌∷◌, ◌++◌, length, is_empty, leb, ◌==◌,
  if◌then◌else◌, contains_text, starts_with,
}
use wander_mind.Float.{Float, f0_0}
use wander_mind.Models.Thought.{KnowledgeItem}
use wander_mind.Runtimes.Sanitize.{has_text}
use wander_mind.Scoring.Signed.{Signed, pos, Arithmetic}
use wander_mind.Scoring.Markers.{any_marker}

-- `str.casefold` and the functions of cognitive/text.py, which match regular expressions; a
-- similarity is not negative.
pub record TextTools : Type 0 where
  pub casefold : Text → Text
  pub normalize_text : Text → Text
  pub significant_tokens : Text → List Text
  pub jaccard_similarity : Text → Text → Float

-- `bool(terms & {...})`
unfoldable pub shares_term : List Text → List Text → Bool
unfolding has_text
shares_term terms [] = false
shares_term terms (t ∷ ts) = has_text terms t || shares_term terms ts

-- What follows the last colon, `title.rsplit(":", maxsplit=1)[-1]`.
unfoldable pub last_part : Text → Text → Text
last_part seen [] = seen
last_part seen (c ∷ cs) = last_part (if c == 58 then [] else seen ++ c ∷ []) cs

-- `text.startswith((...))`
unfoldable pub starts_with_any : List Text → Text → Bool
unfolding starts_with
starts_with_any [] t = false
starts_with_any (p ∷ ps) t = starts_with p t || starts_with_any ps t

-- `f"{a} {b}"` and `" ".join(parts)`
unfoldable pub spaced : Text → Text → Text
spaced a b = a ++ 32 ∷ b

unfoldable pub joined : List Text → Text
unfolding spaced
joined [] = []
joined (t ∷ []) = t
joined (t ∷ u ∷ ts) = spaced t (joined (u ∷ ts))

abbrev bridge_markers : List Text
bridge_markers =
    text "analogy"
    ∷ text "analogue"
    ∷ text "between"
    ∷ text "compare"
    ∷ text "inform"
    ∷ text "inspired"
    ∷ text "model for"
    ∷ text "resemble"
    ∷ text "similarity"
    ∷ text "teach"
    ∷ text "transfer"
    ∷ text "借鉴"
    ∷ text "启发"
    ∷ text "联系"
    ∷ text "类比"
    ∷ text "比较"
    ∷ []

abbrev question_openings : List Text
question_openings =
    text "how does "
    ∷ text "why does "
    ∷ text "what is "
    ∷ text "explain "
    ∷ text "如何"
    ∷ text "为什么"
    ∷ text "什么是"
    ∷ []

module _ (a : Arithmetic) (w : TextTools) where
  unfoldable pub has_future_terms : Text → Bool
  unfolding shares_term text
  has_future_terms t = shares_term (w.significant_tokens t) (
      text "prediction"
      ∷ text "implication"
      ∷ text "future"
      ∷ text "direction"
      ∷ text "预测"
      ∷ text "影响"
      ∷ text "方向"
      ∷ [])

  unfoldable pub has_testable_terms : Text → Bool
  unfolding shares_term text
  has_testable_terms t = shares_term (w.significant_tokens t) (
      text "test"
      ∷ text "measure"
      ∷ text "evidence"
      ∷ text "prediction"
      ∷ text "验证"
      ∷ text "衡量"
      ∷ text "证据"
      ∷ [])

  unfoldable pub has_absolute_claims : Text → Bool
  unfolding any_marker text
  has_absolute_claims t =
      any_marker
        (text "always"
          ∷ text "never"
          ∷ text "prove"
          ∷ text "proves"
          ∷ text "directly causes"
          ∷ text "必然"
          ∷ text "总是"
          ∷ text "证明"
          ∷ [])
        (w.casefold t)

  unfoldable pub has_obviousness_markers : Text → Bool
  unfolding any_marker text
  has_obviousness_markers t =
      any_marker
        (text "at the most generic level"
          ∷ text "are similar to"
          ∷ text "is similar to itself"
          ∷ text "最泛化的层面"
          ∷ text "和自己相似"
          ∷ [])
        (w.casefold t)

  -- Whether a seed names the concept of an item's title.
  unfoldable pub names_item : Text → KnowledgeItem → Bool
  unfolding last_part contains_text
  names_item normalized_seed item =
      let concept_title = w.casefold (w.normalize_text (last_part [] item.title)) in
      leb 4 (length concept_title) && contains_text concept_title normalized_seed

  unfoldable pub names_any : Text → List KnowledgeItem → Bool
  unfolding names_item
  names_any normalized_seed [] = false
  names_any normalized_seed (item ∷ items) =
      names_item normalized_seed item || names_any normalized_seed items

  -- Whether `_is_direct_restatement` returns 0.95; it returns 0.0 otherwise.
  unfoldable pub is_direct_restatement : Text → List KnowledgeItem → Bool
  unfolding any_marker starts_with_any names_any
  is_direct_restatement seed_text items =
      let normalized_seed = w.casefold (w.normalize_text seed_text) in
      if any_marker bridge_markers normalized_seed
      then false
      else starts_with_any question_openings normalized_seed && names_any normalized_seed items

  unfoldable pub count_named : Text → List KnowledgeItem → ℕ
  unfolding names_item
  count_named normalized_seed [] = 0
  count_named normalized_seed (item ∷ items) =
      (if names_item normalized_seed item then 1 else 0) + count_named normalized_seed items

  unfoldable pub source_anchor_coverage : Text → List KnowledgeItem → Signed
  unfolding count_named
  source_anchor_coverage seed_text items =
      if is_empty items
      then pos f0_0
      else a.ratio (count_named (w.casefold (w.normalize_text seed_text)) items) (length items)
