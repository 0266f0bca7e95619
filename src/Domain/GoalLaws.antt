-- ===== src/Domain/GoalLaws.antt =====
-- What the transitions of a goal guarantee.
pub mod Drafts
pub mod Aggregate
