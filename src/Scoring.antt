-- ===== src/Scoring.antt =====
-- backend/src/wandermind/cognitive/scoring.py: thresholds, and the text markers that veto a score.
pub mod Signed
pub mod Terms
pub mod History
pub mod Subject
pub mod Score
pub mod Vetoes
pub mod Markers
pub mod Threshold
