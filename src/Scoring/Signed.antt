-- ===== src/Scoring/Signed.antt =====
-- Python floats with a sign, for the sums of backend/src/wandermind/cognitive/scoring.py that may fall
-- below zero, and `_clamp`. NaN is left out. Rounded arithmetic is a parameter.
use wander_mind.Prelude.{
  ℕ, Bool, false, not, ◌&&◌, ◌≡◌, ◌≤◌, ltb, ◌==◌, min, max, if◌then◌else◌, arith,
}
use wander_mind.Float.{Float, f0_0, f1_0}

-- A magnitude with its sign; `neg f0_0` is -0.0.
pub data Signed : Type 0 where
  pos neg : Float → Signed

-- The interpreter's operations, each result rounded; `ratio` divides two integers.
pub record Arithmetic : Type 0 where
  pub plus : Signed → Signed → Signed
  pub minus : Signed → Signed → Signed
  pub times : Signed → Signed → Signed
  pub over : Signed → Signed → Signed
  pub ratio : ℕ → ℕ → Signed
  pub of_int : ℕ → Signed

-- `a < b`
unfoldable pub signed_lt : Signed → Signed → Bool
signed_lt (pos a) (pos b) = ltb a b
signed_lt (pos a) (neg b) = false
signed_lt (neg a) (pos b) = not (a == f0_0 && b == f0_0)
signed_lt (neg a) (neg b) = ltb b a

-- `max(a, b)` and `min(a, b)`, which keep the first of equals.
unfoldable pub greater : Signed → Signed → Signed
unfolding signed_lt
greater a b = if signed_lt a b then b else a

unfoldable pub lesser : Signed → Signed → Signed
unfolding signed_lt
lesser a b = if signed_lt b a then b else a

unfoldable pub is_zero : Signed → Bool
is_zero (pos a) = a == f0_0
is_zero (neg a) = a == f0_0

-- `abs(value)`
unfoldable pub magnitude : Signed → Signed
magnitude (pos a) = pos a
magnitude (neg a) = pos a

-- `_clamp`
unfoldable pub clamp : Signed → Float
clamp (pos a) = min f1_0 a
clamp (neg a) = f0_0

-- `float(b)` of a test.
unfoldable pub unit : Bool → Signed
unit b = pos (if b then f1_0 else f0_0)

pub clamp-le : (a : Signed) → clamp a ≤ f1_0
unfolding clamp
clamp-le (pos a) = ground arith
clamp-le (neg a) = ground arith

pub clamp-greater : (a b : Signed) → clamp (greater a b) ≡ max (clamp a) (clamp b)
unfolding clamp greater signed_lt
clamp-greater (pos a) (pos b) = ground arith
clamp-greater (pos a) (neg b) = ground arith
clamp-greater (neg a) (pos b) = ground arith
clamp-greater (neg a) (neg b) = ground arith
