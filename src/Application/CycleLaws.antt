-- ===== src/Application/CycleLaws.antt =====
-- What the use cases of backend/internal/application/workspace/cycle_use_cases.go guarantee.
pub mod Listing
pub mod Edits
pub mod Schedule
pub mod Completion
pub mod Commands
pub mod Replanning
pub mod ReplanCommand
pub mod Paging
