-- ===== src/Scoring/Markers.antt =====
-- `has_arbitrary_framing` of backend/src/wandermind/cognitive/scoring.py. Its result, 1.0 or 0.0,
-- is a Boolean here.
use wander_mind.Prelude.{Text, text, Bool, false, ◌||◌, List, [], ◌∷◌, contains_text}

unfoldable pub any_marker : List Text → Text → Bool
any_marker [] lowered = false
any_marker (m ∷ ms) lowered = contains_text m lowered || any_marker ms lowered

abbrev arbitrary_markers : List Text
arbitrary_markers =
    text "secretly"
    ∷ text "magically"
    ∷ text "randomly proves"
    ∷ text "without any evidence"
    ∷ text "神秘地"
    ∷ text "魔法般"
    ∷ text "毫无依据"
    ∷ []

-- `casefold` is `str.casefold`.
unfoldable pub has_arbitrary_framing : (Text → Text) → Text → Bool
unfolding any_marker contains_text text
has_arbitrary_framing casefold t = any_marker arbitrary_markers (casefold t)
