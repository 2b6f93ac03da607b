-- ===== src/Tests.antt =====
-- Tests and instances of the properties.
mod Sample
mod Runs
mod Rules
mod Scores
mod Watch
mod Pilot
mod Stores
mod Agents
mod Deep
mod Background
