-- ===== src/Domain.antt =====
-- backend/internal/domain: the entities and their transitions.
pub mod ReviewDate
pub mod Cycle
pub mod CycleLaws
pub mod Goal
pub mod GoalLaws
pub mod Ai
pub mod User
