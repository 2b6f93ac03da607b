-- ===== src/Guardian/Health.antt =====
-- What the guardian's counters say about its checks.
use wander_mind.Prelude.{
  ◌∙◌, refl, ◌≡◌, ◌<◌, ◌↔◌, Bool, true, false, some, List, [], ◌∷◌, arith, is_some,
}
use wander_mind.Float.{Float, FloatOps}
use wander_mind.Guardian.{ServiceGuardian, Round, run_once, snapshot}

-- An error is recorded exactly while its failures are counted.
pub record IsConsistent (g : ServiceGuardian) : Type 0 where
  pub worker : (is_some g.worker_error ≡ true) ↔ (0 < g.worker_failures)
  pub keepalive : (is_some g.keepalive_error ≡ true) ↔ (0 < g.keepalive_failures)

-- Every check, forced or not, failing, cancelled or not, keeps an error
-- recorded exactly while its failures are counted.
pub run_once-IsConsistent :
    (ops : FloatOps) (force_keepalive : Bool) (r : Round) (g : ServiceGuardian)
    → IsConsistent g
    → IsConsistent (run_once ops force_keepalive r g)
unfolding run_once
run_once-IsConsistent ops force_keepalive r g h = ground arith

-- Where errors and counters go together, the snapshot shows an error exactly if it counts
-- consecutive failures.
pub snapshot_error_iff :
    (g : ServiceGuardian)
    → IsConsistent g
    → (is_some (snapshot g).last_error ≡ true) ↔ (0 < (snapshot g).consecutive_failures)
unfolding snapshot
snapshot_error_iff g h = ground arith

-- The rounds of `_loop`.
unfoldable pub run_all : FloatOps → List Round → ServiceGuardian → ServiceGuardian
run_all ops [] g = g
run_all ops (r ∷ rs) g = run_all ops rs (run_once ops false r g)

-- Every round comes before `at`.
abbrev pub AllBefore : Float → List Round → Type 0
AllBefore at [] = Unit
AllBefore at (r ∷ rs) = (r.now < at) × AllBefore at rs

throttled_once :
    (ops : FloatOps) (r : Round) (g : ServiceGuardian) (at : Float)
    → g.next_keepalive_at ≡ some at
    → r.now < at
    → ((run_once ops false r g).next_keepalive_at ≡ some at)
      × ((run_once ops false r g).keepalive_failures ≡ g.keepalive_failures)
      × ((run_once ops false r g).last_keepalive_success_at ≡ g.last_keepalive_success_at)
unfolding run_once
throttled_once ops r g at e h = ground arith

-- However many rounds the loop runs before the next keepalive is due, and whatever the worker
-- answers in them, no keepalive is counted as sent, failed or succeeded.
pub keepalive_throttled :
    (ops : FloatOps) (rs : List Round) (g : ServiceGuardian) (at : Float)
    → g.next_keepalive_at ≡ some at
    → AllBefore at rs
    → ((run_all ops rs g).next_keepalive_at ≡ some at)
      × ((run_all ops rs g).keepalive_failures ≡ g.keepalive_failures)
      × ((run_all ops rs g).last_keepalive_success_at ≡ g.last_keepalive_success_at)
unfolding run_all
keepalive_throttled ops [] g at e h = (e, refl, refl)
keepalive_throttled ops (r ∷ rs) g at e h =
    let (next, failures, success) = throttled_once ops r g at e h.0 in
    let (a, b, c) = keepalive_throttled ops rs (run_once ops false r g) at next h.1 in
    (a, b ∙ failures, c ∙ success)
