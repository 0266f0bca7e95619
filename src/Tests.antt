-- ===== src/Tests.antt =====
-- Runs at concrete inputs, and each theorem at an input where its hypotheses hold.
mod CycleTests
mod GoalTests
mod Store
mod CommandTests
mod CommandLawTests
mod ReviewTests
mod ContextTests
mod PagingTests
mod DeletionTests
mod GoalPagingTests
mod ScheduleTests
