-- ===== src/Models.antt =====
-- backend/src/wandermind/models: the enumerations and the records that the services pass about.
-- A UUID and a point in time are numbers; a `metadata` dictionary is a record of the keys that the
-- modelled code reads or writes.
pub mod Enums
pub mod Evaluation
pub mod Budget
pub mod Quality
pub mod Graph
pub mod Thought
pub mod Session
pub mod Runtime
pub mod Campaign
