-- ===== src/Application/ReviewLaws.antt =====
-- What the use cases of backend/internal/application/workspace/review_transition_use_cases.go
-- guarantee.
pub mod ContinueWrites
pub mod Locked
pub mod Continuing
pub mod ContinueCommand
pub mod ActiveTermination
pub mod ReviewedTermination
pub mod TerminateCommand
pub mod Usages
