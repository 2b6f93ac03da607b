-- ===== src/Guardian.antt =====
-- `ServiceGuardian` of backend/src/wandermind/application/service_guardian.py: one check of the
-- autopilot worker and of the keepalive address.
pub mod Health
use wander_mind.Prelude.{
  ℕ, ◌+◌, Text, text, Bool, true, not, ◌&&◌, Option, none, some, ◌++◌, max, ltb, is_some, take,
  if◌then◌else◌,
}
use wander_mind.Float.{Float, FloatOps}

-- `_next_keepalive_at` and the intervals are readings of a monotonic clock; `task` is whether the
-- loop's task is there and not done. An error is its recorded message.
pub record ServiceGuardian : Type 0 where
  pub keepalive_url : Option Text
  pub keepalive_interval_seconds : Float
  pub last_check_at : Option ℕ
  pub last_keepalive_success_at : Option ℕ
  pub worker_error : Option Text
  pub keepalive_error : Option Text
  pub worker_failures : ℕ
  pub keepalive_failures : ℕ
  pub autopilot_restarts : ℕ
  pub next_keepalive_at : Option Float
  pub running : Bool

pub record ServiceGuardianSnapshot : Type 0 where
  pub running : Bool
  pub keepalive_enabled : Bool
  pub last_check_at : Option ℕ
  pub last_keepalive_success_at : Option ℕ
  pub last_error : Option Text
  pub consecutive_failures : ℕ
  pub autopilot_restarts : ℕ

pub data Operation : Type 0 where
  autopilot keepalive : Operation

-- How a call came back: with a value, with an exception (its class name and its text), or cancelled.
pub data Answer (A : Type 0) : Type 0 where
  done : A → Answer A
  failed : Text → Text → Answer A
  cancelled : Answer A

abbrev operation_text : Operation → Text
operation_text autopilot = text "autopilot"
operation_text keepalive = text "keepalive"

unfoldable pub failure_message : Operation → Text → Text → Text
failure_message operation class_name message =
    operation_text operation ++ (text ": " ++ (class_name ++ (text ": " ++ take 500 message)))

-- `_record_failure`
unfoldable pub record_failure : Operation → Text → ServiceGuardian → ServiceGuardian
record_failure autopilot message g = record g {
  worker_error = some message;
  worker_failures = g.worker_failures + 1;
}
record_failure keepalive message g = record g {
  keepalive_error = some message;
  keepalive_failures = g.keepalive_failures + 1;
}

-- The first `try`. Cancellation leaves `run_once`.
unfoldable pub check_worker : Answer Bool → ServiceGuardian → Option ServiceGuardian
unfolding record_failure
check_worker (done restarted) g = some (record g {
  worker_error = none;
  worker_failures = 0;
  autopilot_restarts = g.autopilot_restarts + (if restarted then 1 else 0);
})
check_worker (failed class_name message) g =
    some (record_failure autopilot (failure_message autopilot class_name message) g)
check_worker cancelled g = none

-- The second `try`; `now` is what `utc_now()` gives after a success.
unfoldable pub check_keepalive : ℕ → Answer (Unit {0}) → ServiceGuardian → ServiceGuardian
unfolding record_failure
check_keepalive now (done _) g = record g {
  last_keepalive_success_at = some now;
  keepalive_error = none;
  keepalive_failures = 0;
}
check_keepalive now (failed class_name message) g =
    record_failure keepalive (failure_message keepalive class_name message) g
check_keepalive now cancelled g = g

-- `self._next_keepalive_at is None or now < self._next_keepalive_at`
unfoldable pub too_early : Option Float → Float → Bool
too_early none now = true
too_early (some at) now = ltb now at

-- What the calls of one `run_once` answer.
pub record Round : Type 0 where
  pub checked_at : ℕ
  pub worker : Answer Bool
  pub now : Float
  pub request : Answer (Unit {0})
  pub succeeded_at : ℕ

unfoldable pub keepalive_step :
    FloatOps → Bool → Round → Option Text → ServiceGuardian → ServiceGuardian
unfolding check_keepalive too_early
keepalive_step ops force_keepalive r none g = g
keepalive_step ops force_keepalive r (some url) g =
    if not force_keepalive && too_early g.next_keepalive_at r.now
    then g
    else check_keepalive r.succeeded_at r.request
        (record g { next_keepalive_at = some (ops.add r.now g.keepalive_interval_seconds) })

unfoldable pub after_worker :
    FloatOps → Bool → Round → ServiceGuardian → Option ServiceGuardian → ServiceGuardian
unfolding keepalive_step
after_worker ops force_keepalive r g none = g
after_worker ops force_keepalive r g (some g') =
    keepalive_step ops force_keepalive r g'.keepalive_url g'

-- The guardian as `run_once` leaves it, by a return or by a cancellation.
unfoldable pub run_once : FloatOps → Bool → Round → ServiceGuardian → ServiceGuardian
unfolding check_worker after_worker
run_once ops force_keepalive r g =
    let checked = record g { last_check_at = some r.checked_at } in
    after_worker ops force_keepalive r checked (check_worker r.worker checked)

abbrev or_error : Option Text → Option Text → Option Text
or_error none b = b
or_error (some a) b = some a

unfoldable pub snapshot : ServiceGuardian → ServiceGuardianSnapshot
snapshot g = record {
  running = g.running;
  keepalive_enabled = is_some g.keepalive_url;
  last_check_at = g.last_check_at;
  last_keepalive_success_at = g.last_keepalive_success_at;
  last_error = or_error g.worker_error g.keepalive_error;
  consecutive_failures = max g.worker_failures g.keepalive_failures;
  autopilot_restarts = g.autopilot_restarts;
}
