-- ===== src/Tests/Watch.antt =====
-- Instances of what is proved of the service guardian.
use wander_mind.Guardian.Health.{
  IsConsistent, keepalive_throttled, run_all, snapshot_error_iff, run_once-IsConsistent,
}
use wander_mind.Prelude.{refl, ◌≡◌, ◌<◌, ◌↔◌, ◌∷◌, [], some, none, true, arith, is_some}
use wander_mind.Tests.Sample.{ops}
use wander_mind.Guardian.{ServiceGuardian, Round, failed, run_once, snapshot}

abbrev guardian : ServiceGuardian
guardian = record {
  keepalive_url = some (1 ∷ []);
  keepalive_interval_seconds = 300;
  last_check_at = none;
  last_keepalive_success_at = none;
  worker_error = none;
  keepalive_error = none;
  worker_failures = 0;
  keepalive_failures = 0;
  autopilot_restarts = 0;
  next_keepalive_at = some 100;
  running = true;
}

abbrev crash : Round
crash = record {
  checked_at = 1;
  worker = failed (1 ∷ []) (2 ∷ []);
  now = 50;
  request = failed (3 ∷ []) [];
  succeeded_at = 2;
}

guardian-IsConsistent : IsConsistent guardian
guardian-IsConsistent = record { worker = ground arith; keepalive = ground arith }

run_once-IsConsistent_example : IsConsistent (run_once ops true crash guardian)
run_once-IsConsistent_example = run_once-IsConsistent ops true crash guardian guardian-IsConsistent

snapshot_error_iff_example :
    (is_some (snapshot guardian).last_error ≡ true) ↔ (0 < (snapshot guardian).consecutive_failures)
snapshot_error_iff_example = snapshot_error_iff guardian guardian-IsConsistent

keepalive_throttled_example :
    ((run_all ops (crash ∷ crash ∷ []) guardian).next_keepalive_at ≡ some 100)
    × ((run_all ops (crash ∷ crash ∷ []) guardian).keepalive_failures ≡ 0)
    × ((run_all ops (crash ∷ crash ∷ []) guardian).last_keepalive_success_at ≡ none)
keepalive_throttled_example =
    keepalive_throttled ops (crash ∷ crash ∷ []) guardian 100 refl (omega arith)
