-- ===== src/Application/GoalListingLaws.antt =====
-- What `ListGoals` of backend/internal/application/workspace/goal_use_cases.go guarantees.
pub mod Order
pub mod Paging
