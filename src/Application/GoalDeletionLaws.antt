-- ===== src/Application/GoalDeletionLaws.antt =====
-- What `DeleteGoalWithResult` of backend/internal/application/workspace/goal_use_cases.go guarantees.
pub mod Order
pub mod Usages
pub mod Written
pub mod Outcome
pub mod Deleted
pub mod Again
