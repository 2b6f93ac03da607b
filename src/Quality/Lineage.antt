-- ===== src/Quality/Lineage.antt =====
-- What the sources of a wonder are that the autopilot promotes.
use wander_mind.Prelude.{
  ltb, ℕ, refl, sym, ◌∙◌, ◌≡◌, ◌≤◌, ◌↔◌, Bool, true, false, none, some, Option, List, [], ◌∷◌, ◌++◌,
  length, is_empty, arith, Bool-cases, inl, inr,
}
use wander_mind.Float.{Float}
use wander_mind.Models.Quality.{ReviewMetadata, QualityReason}
use wander_mind.Models.Thought.{Wonder, KnowledgeItem}
use wander_mind.Engine.Pairs.{find_item}
use wander_mind.Quality.{
  AutopilotQualityPolicy, appended, evaluate, evaluate_review, distinct_ids, distinct_reasons,
  has_reason, is_original_evidence, source_checks, lineage_checks, with_lineage_quality,
}
use wander_mind.Quality.Gate.{is_empty-append, IsAcceptable, evaluate_accepts_iff}
use mathlib.Core.Option.{some-injective}
use mathlib.Core.Path.{subst}

distinct_reasons_keeps :
    (seen reasons : List QualityReason)
    → is_empty seen ≡ false
    → is_empty (distinct_reasons seen reasons) ≡ false
unfolding distinct_reasons
distinct_reasons_keeps seen [] h = h
distinct_reasons_keeps seen (r ∷ rs) h = elim (Bool-cases (has_reason seen r)) [
  | inl e ↦ rw e (distinct_reasons_keeps seen rs h)
  | inr e ↦ rw e (distinct_reasons_keeps (seen ++ r ∷ []) rs (nonempty seen))
]
  where
    nonempty : (xs : List QualityReason) → is_empty (xs ++ r ∷ []) ≡ false
    nonempty [] = refl
    nonempty (x ∷ xs) = refl

is_empty-distinct_reasons :
    (reasons : List QualityReason) → is_empty (distinct_reasons [] reasons) ≡ is_empty reasons
unfolding distinct_reasons has_reason
is_empty-distinct_reasons [] = refl
is_empty-distinct_reasons (r ∷ rs) = distinct_reasons_keeps (r ∷ []) rs refl

-- The source is stored, active, no work of the autopilot, and of no refuted standing.
abbrev pub IsOriginal : List KnowledgeItem → ℕ → Type 0
IsOriginal knowledge id =
    (item : KnowledgeItem) × (find_item knowledge id ≡ some item)
    × (is_original_evidence item ≡ true)

abbrev pub AllOriginal : List KnowledgeItem → List ℕ → Type 0
AllOriginal knowledge [] = Unit
AllOriginal knowledge (id ∷ ids) = IsOriginal knowledge id × AllOriginal knowledge ids

source_clear :
    (knowledge : List KnowledgeItem) (id : ℕ) (found : Option KnowledgeItem)
    → find_item knowledge id ≡ found
    → (is_empty (appended (source_checks found)) ≡ true) ↔ IsOriginal knowledge id
unfolding source_checks appended
source_clear knowledge id none e = (λ h. cc, λ h. let (item, same, good) = h in cc)
source_clear knowledge id (some item) e = (
  λ h. (item, e, ground arith),
  λ h.
      let (other, same, good) = h in
      let original =
        subst (λ i. is_original_evidence i ≡ true) (some-injective _ _ (sym same ∙ e)) good in
      ground arith,
)

appended-append :
    (xs ys : List (Bool × QualityReason))
    → (is_empty (appended (xs ++ ys)) ≡ true)
      ↔ ((is_empty (appended xs) ≡ true) × (is_empty (appended ys) ≡ true))
unfolding appended
appended-append [] ys = (λ e. (refl, e), λ h. h.1)
appended-append ((true, r) ∷ xs) ys = (λ e. cc, λ h. cc)
appended-append ((false, r) ∷ xs) ys = appended-append xs ys

lineage_clear :
    (knowledge : List KnowledgeItem) (ids : List ℕ)
    → (is_empty (appended (lineage_checks knowledge ids)) ≡ true) ↔ AllOriginal knowledge ids
unfolding lineage_checks appended
lineage_clear knowledge [] = (λ e. tt, λ h. refl)
lineage_clear knowledge (id ∷ ids) =
    let (split, join) =
      appended-append (source_checks (find_item knowledge id)) (lineage_checks knowledge ids) in
    let (to, from) = source_clear knowledge id (find_item knowledge id) refl in
    let (to', from') = lineage_clear knowledge ids in
    (λ e. (to (split e).0, to' (split e).1), λ h. join (from h.0, from' h.1))

tests_clear :
    {A : Type 0} (n : ℕ) (checks : List (Bool × QualityReason))
    → (is_empty (appended checks) ≡ true) ↔ A
    → (is_empty (appended ((ltb n 2, QualityReason.insufficient_source_lineage) ∷ checks)) ≡ true)
      ↔ ((2 ≤ n) × A)
unfolding appended
tests_clear n checks h = elim (Bool-cases (ltb n 2)) [
  | inl e ↦ rw e (λ absurd. cc, λ g. ground (arith, e, g.0))
  | inr e ↦ rw e (λ a. (ground (arith, e), h.0 a), λ g. h.1 g.1)
]

all_clear :
    (knowledge : List KnowledgeItem) (ids : List ℕ)
    → (is_empty (
          appended (
            (ltb (length ids) 2, QualityReason.insufficient_source_lineage)
            ∷ lineage_checks knowledge ids))
        ≡ true)
      ↔ ((2 ≤ length ids) × AllOriginal knowledge ids)
all_clear knowledge ids =
    tests_clear (length ids) (lineage_checks knowledge ids) (lineage_clear knowledge ids)

module _ (p : AutopilotQualityPolicy) where
  nonempty_end : (xs : List QualityReason) (r : QualityReason) → is_empty (xs ++ r ∷ []) ≡ false
  nonempty_end [] r = refl
  nonempty_end (x ∷ xs) r = refl

  review_accepts :
      (wonder : Wonder) (t : Float) (found : Option ReviewMetadata)
      → (evaluate_review p wonder t found).accepted
        ≡ is_empty (evaluate_review p wonder t found).reasons
  unfolding evaluate_review
  review_accepts wonder t none = sym (nonempty_end _ _)
  review_accepts wonder t (some review) = refl

  -- With the check of its sources a wonder is accepted exactly if the gate accepts it, it has at least two
  -- different sources, and every source of it is stored, active, not written by the autopilot
  -- and not marked as a hypothesis, rejected or corrupted.
  pub with_lineage_quality_accepts_iff :
      (wonder : Wonder) (configured_threshold : Float) (knowledge : List KnowledgeItem)
      → ((with_lineage_quality (evaluate p wonder configured_threshold) wonder knowledge).accepted
          ≡ true)
        ↔ (IsAcceptable p wonder configured_threshold
            × (2 ≤ length (distinct_ids [] wonder.source_items))
            × AllOriginal knowledge (distinct_ids [] wonder.source_items))
  unfolding with_lineage_quality evaluate
  with_lineage_quality_accepts_iff wonder t knowledge =
      let ids = distinct_ids [] wonder.source_items in
      let reasons = (evaluate p wonder t).reasons in
      let (split, join) = is_empty-append reasons (
        appended (
          (ltb (length ids) 2, QualityReason.insufficient_source_lineage)
          ∷ lineage_checks knowledge ids)) in
      let (to, from) = all_clear knowledge ids in
      let (good, back) = evaluate_accepts_iff p wonder t in
      let same = review_accepts wonder t wonder.runtime_review in
      let empty = is_empty-distinct_reasons (
        reasons
        ++ appended (
            (ltb (length ids) 2, QualityReason.insufficient_source_lineage)
            ∷ lineage_checks knowledge ids)) in
      (
        λ e.
            let (none_given, none_found) = split (sym empty ∙ e) in
            let (two, original) = to none_found in (good (same ∙ none_given), two, original),
        λ h. empty ∙ join (sym same ∙ back h.0, from (h.1, h.2)),
      )
