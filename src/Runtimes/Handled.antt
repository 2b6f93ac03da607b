-- ===== src/Runtimes/Handled.antt =====
-- The handlers and the sessions of backend/src/wandermind/application's services, over what the tracked
-- runtime opens.
use wander_mind.Prelude.{ℕ, suc, ◌≡◌, refl, inl, inr, String, Bool, false, Bool-cases}
use wander_mind.Exec.{Result, ok, err}
use wander_mind.Exec.Triple.{Holds, Triple-bind}
use wander_mind.Runtimes.{Adapter, RuntimeException}
use wander_mind.Runtimes.Tracked.{Tracking, Tracked, start_session, close_session}
use wander_mind.Runtimes.Sessions.{
  is_runtime_error, is_answer_error, caught, except, closed, finally_close, in_session,
}
use wander_mind.Runtimes.Opened.{Within, Opens, Refused, close_session-Quiet, start_session-Opens}

-- What is said of a result or an exception, with the number of sessions.
abbrev pub Ends :
    {A : Type 0}
    → ℕ
    → (A → Type 0)
    → (RuntimeException → Type 0)
    → Result RuntimeException A
    → Tracking
    → Type 0
Ends k Q R = Holds (λ a s. Q a × Within k s) (λ e s. R e × Within k s)

-- No runtime error.
abbrev pub Other : RuntimeException → Type 0
Other e = is_runtime_error e ≡ false

is_answer_error-Other : (e : RuntimeException) → is_answer_error e ≡ false → Other e
unfolding is_answer_error is_runtime_error
is_answer_error-Other (RuntimeException.runtime_error e) h = absurd (cc)
is_answer_error-Other RuntimeException.validation_error h = absurd (cc)
is_answer_error-Other RuntimeException.other_exception h = refl

pub Other-IsRefused : (w : Adapter) (e : RuntimeException) → Other e → Refused w e
Other-IsRefused w e other runtime = absurd (cc)

pub unanswered-IsRefused :
    (w : Adapter) (e : RuntimeException) → is_answer_error e ≡ false → Refused w e
unanswered-IsRefused w e h = Other-IsRefused w e (is_answer_error-Other e h)

-- A handler that answers well, for a body that raises anything.
pub except-Opens :
    {A : Type 0} (k l : ℕ) (Q : A → Type 0) (R : RuntimeException → Type 0)
    (catches : RuntimeException → Bool) (handler : RuntimeException → A) (m : Tracked A)
    (S : RuntimeException → Type 0)
    → ((e : RuntimeException) → catches e ≡ false → R e)
    → ((e : RuntimeException) → Q (handler e))
    → Opens k l m Q S
    → Opens k l (except catches handler m) Q R
unfolding except
except-Opens {A} k l Q R catches handler m S others handled h = record {
  at = λ s p. step (m s).0 (m s).1 (h.at s p);
}
  where
    step :
        (r : Result RuntimeException A) (s : Tracking)
        → Ends l Q S r s
        → Ends l Q R (caught catches handler r) s
    step (ok a) s p = p
    step (err e) s p = elim (Bool-cases (catches e)) [
      | inl caught ↦ rw caught (handled e, p.1)
      | inr raised ↦ rw raised (others e raised, p.1)
    ]

module _ {A : Type 0} (k : ℕ) (Q : A → Type 0) where
  module _ (w : Adapter) where
    finally_close-Opens :
        (R : RuntimeException → Type 0) (m : Tracked A)
        → ((e : RuntimeException) → Other e → R e)
        → Opens k k m Q R
        → Opens k k (finally_close w m) Q R
    unfolding finally_close
    finally_close-Opens R m others h = record {
      at = λ s p.
          let (r, s') = m s in
          step r s' (close_session w s').0 (close_session w s').1 (h.at s p)
            (λ within. (close_session-Quiet w k).at s' within);
    }
      where
        kept :
            (c : Result RuntimeException (Unit {0})) (s : Tracking)
            → Ends k (λ u. Unit {0}) (λ e. Unit {0}) c s
            → Within k s
        kept (ok u) s p = p.1
        kept (err e) s p = p.1

        within : (r : Result RuntimeException A) (s : Tracking) → Ends k Q R r s → Within k s
        within (ok a) s p = p.1
        within (err e) s p = p.1

        moved :
            (r : Result RuntimeException A) (s t : Tracking)
            → Ends k Q R r s
            → Within k t
            → Ends k Q R r t
        moved (ok a) s t p q = (p.0, q)
        moved (err e) s t p q = (p.0, q)

        ended :
            (r : Result RuntimeException A) (s : Tracking) (c : Result RuntimeException (Unit {0}))
            (t : Tracking)
            → Ends k Q R r s
            → Within k t
            → Ends k Q R (closed r c) t
        ended r s (ok u) t p q = moved r s t p q
        ended r s (err e) t p q = elim (Bool-cases (is_runtime_error e)) [
          | inl runtime ↦ rw runtime (moved r s t p q)
          | inr other ↦ rw other (others e other, q)
        ]

        step :
            (r : Result RuntimeException A) (s : Tracking) (c : Result RuntimeException (Unit {0}))
            (t : Tracking)
            → Ends k Q R r s
            → (Within k s → Ends k (λ u. Unit {0}) (λ e. Unit {0}) c t)
            → Ends k Q R (closed r c) t
        step r s c t p close = ended r s c t p (kept c t (close (within r s p)))

-- A session that is started, used and closed.
pub in_session-Opens :
    {A : Type 0} (k : ℕ) (Q : A → Type 0) (R : RuntimeException → Type 0) (w : Adapter)
    (purpose : String) (m : Tracked A)
    → ((e : RuntimeException) → Refused w e → R e)
    → Opens (suc k) (suc k) m Q R
    → Opens k (suc k) (in_session w purpose m) Q R
unfolding in_session
in_session-Opens k Q R w purpose m refused h =
    Triple-bind (λ a s. Unit {0} × Within (suc k) s) _ (start_session w purpose) _
      (record { at = λ s p. widen _ _ ((start_session-Opens w k purpose).at s p) })
      (λ u. record {
        at = λ s p.
            (finally_close-Opens (suc k) Q w R m (λ e o. refused e (Other-IsRefused w e o)) h).at s
              p.1;
      })
  where
    widen :
        (r : Result RuntimeException (Unit {0})) (s : Tracking)
        → Ends (suc k) (λ u. Unit {0}) (Refused w) r s
        → Ends (suc k) (λ u. Unit {0}) R r s
    widen (ok u) s p = p
    widen (err e) s p = (refused e p.0, p.1)
