-- ===== src/Application.antt =====
-- backend/internal/application: the use cases.
pub mod Errors
pub mod Views
pub mod GoalChecks
pub mod CycleChecks
pub mod CycleSummaries
pub mod CycleListing
pub mod Tx
pub mod TxLaws
pub mod CycleTx
pub mod ReviewTx
pub mod ReviewChecks
pub mod ReviewCommands
pub mod ReviewLaws
pub mod GoalListing
pub mod GoalListingLaws
pub mod GoalTx
pub mod GoalDeletion
pub mod GoalDeletionLaws
pub mod CycleResults
pub mod CycleCommands
pub mod CycleLaws
pub mod ContextSelector
pub mod ContextLaws
