-- ===== src/Runtimes/Sessions.antt =====
-- The sessions in which the services of backend/src/wandermind/application put tasks to the tracked
-- runtime, with their handlers of errors.
use wander_mind.Prelude.{String, Bool, true, false, Option, none, some, if◌then◌else◌}
use wander_mind.Exec.{Result, ok, err, ◌>>◌}
use wander_mind.Runtimes.{Adapter, RuntimeException}
use wander_mind.Runtimes.Tracked.{Tracked, start_session, close_session}

-- `except RuntimeErrorBase` and `except (RuntimeErrorBase, ValidationError)`.
unfoldable pub is_runtime_error : RuntimeException → Bool
is_runtime_error (RuntimeException.runtime_error error) = true
is_runtime_error _ = false

unfoldable pub is_answer_error : RuntimeException → Bool
is_answer_error RuntimeException.other_exception = false
is_answer_error _ = true

abbrev pub caught :
    {A : Type 0}
    → (RuntimeException → Bool)
    → (RuntimeException → A)
    → Result RuntimeException A
    → Result RuntimeException A
caught catches handler (ok a) = ok a
caught catches handler (err e) = if catches e then ok (handler e) else err e

unfoldable pub except :
    {A : Type 0} → (RuntimeException → Bool) → (RuntimeException → A) → Tracked A → Tracked A
except catches handler m s = let (r, s') = m s in (caught catches handler r, s')

-- `_close_session`, which suppresses runtime errors, after a result or a raise.
abbrev pub closed :
    {A : Type 0}
    → Result RuntimeException A
    → Result RuntimeException (Unit {0})
    → Result RuntimeException A
unfolding is_runtime_error
closed r (ok u) = r
closed r (err e) = if is_runtime_error e then r else err e

-- What follows a `start_session` that may fail with an answer of its own.
abbrev pub started :
    {A : Type 0}
    → (RuntimeException → A)
    → Tracked A
    → Result RuntimeException (Unit {0})
    → Tracked A
unfolding is_runtime_error
started handler body (ok u) s = body s
started handler body (err e) s = (if is_runtime_error e then ok (handler e) else err e, s)

unfoldable pub validated : {A : Type 0} → RuntimeException → Option A → Result RuntimeException A
validated error none = err error
validated error (some a) = ok a

module _ (w : Adapter) where
  unfoldable pub finally_close : {A : Type 0} → Tracked A → Tracked A
  unfolding closed close_session
  finally_close m s = let (r, s') = m s in let (c, s'') = close_session w s' in (closed r c, s'')

  unfoldable pub with_session :
      {A : Type 0} → String → (RuntimeException → A) → Tracked A → Tracked A
  unfolding started finally_close start_session
  with_session purpose handler body s =
      let (r, s') = start_session w purpose s in started handler (finally_close body) r s'

  -- A session whose start is not guarded by a handler.
  unfoldable pub in_session : {A : Type 0} → String → Tracked A → Tracked A
  unfolding finally_close start_session
  in_session purpose body = do start_session w purpose; finally_close body
