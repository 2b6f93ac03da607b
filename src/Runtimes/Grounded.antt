-- ===== src/Runtimes/Grounded.antt =====
-- What a review by the agent runtime guarantees, whatever the runtime answers.
use wander_mind.Prelude.{
  ℕ, ◌≤◌, true, false, not, ◌&&◌, ◌||◌, ◌≡◌, refl, ◌⊎◌, inl, inr, List, [], ◌∷◌, ◌++◌, map, length,
  contains, insert_new, min, ltb, leb, Bool-cases, arith, ◌==◌,
}
use wander_mind.Exec.{Result, ok, err, pure}
use wander_mind.Exec.Triple.{Triple, Holds, Triple-bind, Triple-pure}
use wander_mind.Models.Thought.{Candidate, KnowledgeItem, CandidateReviewResult}
use wander_mind.Engine.Review.{is_given}
use wander_mind.Quality.{distinct_ids}
use wander_mind.Runtimes.{RuntimeException, validation_error, run_with_retry}
use wander_mind.Runtimes.Tracked.{Tracking, run_task}
use wander_mind.Runtimes.Sanitize.{
  Reviewing, ReviewEvidenceClaim, CandidateReviewOutput, claims_in, refs_of, rejected_for, rejects,
  asks_revision, check_grounding, check_revision, trusted_refs, grounded_output, sanitize_review,
  Sanitized, with_room,
}
use wander_mind.Runtimes.Sessions.{
  validated, is_runtime_error, is_answer_error, caught, except, closed, finally_close, started,
  with_session,
}
use wander_mind.Runtimes.Review.{
  rejection, failed_review, reviewed_result, review_task, ask_review, review,
}

-- No reference stands twice, and each is one of `trusted`.
abbrev pub AllTrusted : List ℕ → List ℕ → Type 0
unfolding contains
AllTrusted trusted [] = Unit
AllTrusted trusted (r ∷ refs) =
    (contains trusted r ≡ true) × (contains refs r ≡ false) × AllTrusted trusted refs

AllTrusted-append :
    (trusted refs : List ℕ) (r : ℕ)
    → contains trusted r ≡ true
    → contains refs r ≡ false
    → AllTrusted trusted refs
    → AllTrusted trusted (refs ++ r ∷ [])
unfolding AllTrusted contains
AllTrusted-append trusted [] r t f h = (t, refl, tt)
AllTrusted-append trusted (x ∷ xs) r t f h = (
  h.0,
  ground (arith, h.1, f, later xs),
  AllTrusted-append trusted xs r t (ground (arith, f)) h.2,
)
  where
    later : (ys : List ℕ) → contains (ys ++ r ∷ []) x ≡ (contains ys x || r == x)
    later [] = ground arith
    later (y ∷ ys) = ground (arith, later ys)

pub insert_new-AllTrusted :
    (trusted seen : List ℕ) (r : ℕ)
    → contains trusted r ≡ true
    → AllTrusted trusted seen
    → AllTrusted trusted (insert_new seen r)
unfolding insert_new
insert_new-AllTrusted trusted seen r t h = elim (Bool-cases (contains seen r)) [
  | inl old ↦ rw old h
  | inr new ↦ rw new (AllTrusted-append trusted seen r t new h)
]

distinct_ids-AllTrusted :
    (trusted seen : List ℕ) (claims : List ReviewEvidenceClaim)
    → AllTrusted trusted seen
    → AllTrusted trusted (
        distinct_ids seen
          (map (λ (c : ReviewEvidenceClaim). c.source_ref) (claims_in trusted claims)))
unfolding distinct_ids claims_in insert_new
distinct_ids-AllTrusted trusted seen [] h = h
distinct_ids-AllTrusted trusted seen (c ∷ claims) h =
    elim (Bool-cases (contains trusted c.source_ref)) [
      | inl t ↦ rw t (
          distinct_ids-AllTrusted trusted (insert_new seen c.source_ref) claims
            (insert_new-AllTrusted trusted seen c.source_ref t h))
      | inr f ↦ rw f (distinct_ids-AllTrusted trusted seen claims h)
    ]

refs_of-AllTrusted :
    (trusted : List ℕ) (claims : List ReviewEvidenceClaim)
    → AllTrusted trusted (refs_of (claims_in trusted claims))
unfolding refs_of AllTrusted
refs_of-AllTrusted trusted claims = distinct_ids-AllTrusted trusted [] claims tt

-- A review that does not reject: its references are trusted and enough, and a revision has a
-- statement.
pub record IsGrounded (w : Reviewing) (context : List KnowledgeItem) (r : CandidateReviewResult)
    : Type 0 where
  pub supporting : AllTrusted (trusted_refs w context) r.supporting_source_refs
  pub countering : AllTrusted (trusted_refs w context) r.counter_source_refs
  pub enough : min 2 (length context) ≤ length r.supporting_source_refs
  pub revised : asks_revision r.verdict ≡ true → is_given r.revised_statement ≡ true

-- After both checks.
checked :
    (refs items : ℕ) (o : CandidateReviewOutput)
    → (rejects (check_revision (check_grounding refs items o)).verdict ≡ true)
      ⊎ ((min 2 items ≤ refs)
          × (asks_revision (check_revision (check_grounding refs items o)).verdict ≡ true
              → is_given (check_revision (check_grounding refs items o)).revised_statement ≡ true))
unfolding check_revision check_grounding rejected_for rejects asks_revision
checked refs items o = elim (Bool-cases (ltb refs (min 2 items))) [
  | inl few ↦ rw few (inl refl)
  | inr enough ↦
      rw enough (elim (Bool-cases (asks_revision o.verdict && not (is_given o.revised_statement))) [
        | inl bare ↦ rw bare (inl refl)
        | inr fine ↦ rw fine (inr (ground (arith, enough), λ asks. ground (arith, fine, asks)))
      ])
]

module _ (w : Reviewing) (context : List KnowledgeItem) where
  unfoldable pub Acceptable : CandidateReviewResult → Type 0
  Acceptable r = (r.runtime_calls ≤ 1) × ((rejects r.verdict ≡ true) ⊎ IsGrounded w context r)

  reviewed-Acceptable :
      (o : CandidateReviewOutput) → Acceptable (reviewed_result w (sanitize_review w o context))
  unfolding Acceptable reviewed_result sanitize_review grounded_output
  reviewed-Acceptable o =
      let trusted = trusted_refs w context in
      let g = grounded_output w context o in
      let refs = refs_of (claims_in trusted o.supporting_evidence) in
      (
        omega arith,
        elim (checked (length refs) (length context) g) [
          | inl rejected ↦ inl rejected
          | inr (enough, revised) ↦ inr (record {
            supporting = refs_of-AllTrusted trusted o.supporting_evidence;
            countering = refs_of-AllTrusted trusted o.counter_evidence;
            enough = enough;
            revised = revised;
          })
        ],
      )

  rejection-Acceptable : (e : RuntimeException) → Acceptable (failed_review w e)
  unfolding Acceptable failed_review rejection rejects
  rejection-Acceptable e = (omega arith, inl refl)

  anything :
      {A : Type 0} (r : Result RuntimeException A) (s : Tracking)
      → Holds (λ a s. Unit {0}) (λ e s. Unit {0}) r s
  anything (ok a) s = tt
  anything (err e) s = tt

  -- What passes the validation of the weaknesses is as it was.
  fitting :
      (x : Sanitized) (s : Tracking)
      → Acceptable (reviewed_result w x)
      → Holds
          (λ x s. Acceptable (reviewed_result w x))
          (λ e s. Unit {0})
          (validated validation_error (with_room x))
          s
  unfolding with_room validated
  fitting x s h = elim (Bool-cases (leb (length x.output.weaknesses) 8)) [
    | inl room ↦ rw room h
    | inr full ↦ rw full tt
  ]

  ask_review-Acceptable :
      (n : ℕ) (c : Candidate)
      → Triple
          (λ (s : Tracking). Unit {0})
          (ask_review w n c context)
          (λ r s. Acceptable r)
          (λ e s. Unit {0})
  unfolding ask_review
  ask_review-Acceptable n c =
      Triple-bind (λ r s. Unit {0}) (λ r s. Acceptable r)
        (run_with_retry (run_task w.adapter (review_task w c context)) n) _
        (record { at = λ s p. anything _ _ })
        (λ result.
          Triple-bind (λ o s. Unit {0}) (λ r s. Acceptable r) _ _
            (record { at = λ s p. anything _ s })
            (λ o.
              Triple-bind (λ x s. Acceptable (reviewed_result w x)) (λ r s. Acceptable r) _ _
                (record {
                  at = λ s p. fitting (sanitize_review w o context) s (reviewed-Acceptable o);
                })
                (λ x. Triple-pure (λ r s. Acceptable r) _ (λ s p. p))))

  -- What the review promises of a result or a raise.
  unfoldable pub Promised : Result RuntimeException CandidateReviewResult → Type 0
  unfolding is_runtime_error
  Promised (ok r) = Acceptable r
  Promised (err e) = is_runtime_error e ≡ false

  caught-Promised :
      (r : Result RuntimeException CandidateReviewResult) (s : Tracking)
      → Holds (λ r s. Acceptable r) (λ e s. Unit {0}) r s
      → Promised (caught is_answer_error (failed_review w) r)
  unfolding Promised is_answer_error is_runtime_error
  caught-Promised (ok r) s h = h
  caught-Promised (err (RuntimeException.runtime_error e)) s h =
      rejection-Acceptable (RuntimeException.runtime_error e)
  caught-Promised (err RuntimeException.validation_error) s h =
      rejection-Acceptable validation_error
  caught-Promised (err RuntimeException.other_exception) s h = refl

  closed-Promised :
      (r : Result RuntimeException CandidateReviewResult) (c : Result RuntimeException (Unit {0}))
      → Promised r
      → Promised (closed r c)
  unfolding Promised
  closed-Promised r (ok u) h = h
  closed-Promised r (err e) h = elim (Bool-cases (is_runtime_error e)) [
    | inl e' ↦ rw e' h
    | inr e' ↦ rw e' e'
  ]

  started-Promised :
      (c : Candidate) (n : ℕ) (u : Result RuntimeException (Unit {0})) (s : Tracking)
      → Promised
          (started
            (failed_review w)
            (finally_close w.adapter
              (except is_answer_error (failed_review w) (ask_review w n c context)))
            u
            s).0
  unfolding Promised finally_close except
  started-Promised c n (ok u) s =
      closed-Promised _ _ (caught-Promised _ _ ((ask_review-Acceptable n c).at s tt))
  started-Promised c n (err e) s = elim (Bool-cases (is_runtime_error e)) [
    | inl e' ↦ rw e' (rejection-Acceptable e)
    | inr e' ↦ rw e' e'
  ]

  -- Whatever the runtime, its sessions and the validation answer, a review counts at most one runtime
  -- call and either rejects, or its references are distinct, trusted ones, at least as many as two or
  -- the items of the context, and a revision has a statement; what it raises is no runtime error.
  pub review-Promised :
      (max_retries : ℕ) (candidate : Candidate) (max_runtime_calls : ℕ) (s : Tracking)
      → Promised (review w max_retries candidate context max_runtime_calls s).0
  unfolding Promised review rejection pure with_session Acceptable rejects
  review-Promised max_retries candidate max_runtime_calls s =
      elim (Bool-cases (ltb max_runtime_calls 1)) [
        | inl none_left ↦ rw none_left (omega arith, inl refl)
        | inr left ↦ rw left (started-Promised candidate max_retries _ _)
      ]
