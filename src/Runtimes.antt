-- ===== src/Runtimes.antt =====
-- backend/src/wandermind/runtime/base.py: the errors of an agent runtime, its tasks, and
-- `run_with_retry`. An adapter's own work, over a network or in another process, is a parameter.
pub mod Tracked
pub mod Charges
pub mod Attempts
pub mod Sessions
pub mod Opened
pub mod Handled
pub mod Sanitize
pub mod Review
pub mod Synthesis
pub mod Grounded
pub mod Served
use wander_mind.Prelude.{ℕ, zero, suc, Text, String, Bool, true, false, Option, if◌then◌else◌}
use wander_mind.Float.{Float}
use wander_mind.Exec.{Result, ok, err, Exec}
use wander_mind.Models.Runtime.{RuntimeSession}

-- The classes below `RuntimeErrorBase`; an execution error says itself whether it is retryable.
pub data RuntimeErrorBase : Type 0 where
  unavailable timeout interrupted malformed_output : RuntimeErrorBase
  execution : Bool → RuntimeErrorBase

-- What may be raised; the last is any other exception.
pub data RuntimeException : Type 0 where
  runtime_error : RuntimeErrorBase → RuntimeException
  validation_error other_exception : RuntimeException

unfoldable pub retryable : RuntimeErrorBase → Bool
retryable RuntimeErrorBase.timeout = true
retryable RuntimeErrorBase.malformed_output = true
retryable (RuntimeErrorBase.execution again) = again
retryable _ = false

-- `session_id` of a task's metadata: a UUID, or another string.
pub data SessionRef : Type 0 where
  session_uuid : ℕ → SessionRef
  not_a_uuid : SessionRef

-- The schema, the sandbox, the timeout and the roots are left out.
pub record RuntimeTask : Type 0 where
  pub prompt : Text
  pub wander_session_id : Option SessionRef

-- The keys of `usage` that are read.
pub record RuntimeUsage : Type 0 where
  pub runtime_calls : Option ℕ
  pub duration_seconds : Option Float
  pub input_tokens : Option ℕ
  pub output_tokens : Option ℕ
  pub total_tokens : Option ℕ
  pub provider : Option Text

-- `structured` is the text of the JSON object.
pub record RuntimeTaskResult : Type 0 where
  pub structured : Text
  pub usage : RuntimeUsage

-- Whether an exception leads to another attempt, where one is left.
unfoldable pub is_retried : RuntimeException → Bool
unfolding retryable
is_retried (RuntimeException.runtime_error error) = retryable error
is_retried _ = false

module _ {S A : Type 0} where
  abbrev pub retry_with :
      Result RuntimeException A → S → Result RuntimeException A × S → Result RuntimeException A × S
  retry_with (ok a) s again = (ok a, s)
  retry_with (err e) s again = if is_retried e then again else (err e, s)

  -- The number counts `max_retries - attempts`; the sleep between attempts changes nothing.
  unfoldable pub run_with_retry : Exec RuntimeException S A → ℕ → Exec RuntimeException S A
  unfolding is_retried
  run_with_retry run zero s = run s
  run_with_retry run (suc left) s =
      let (r, s') = run s in let again = run_with_retry run left s' in retry_with r s' again

-- The delegate, each answer by the number of questions so far, with the clock and the interpreter's
-- addition.
pub record Adapter : Type 0 where
  pub add : Float → Float → Float
  pub now : ℕ → ℕ
  pub elapsed : ℕ → Float
  pub start_session : ℕ → String → Result RuntimeException RuntimeSession
  pub run_task : ℕ → RuntimeTask → Result RuntimeException RuntimeTaskResult
  pub close_session : ℕ → Result RuntimeException (Unit {0})
