-- ===== src/Lib.antt =====
-- A verification library for the backend of cycle: goals, their versions, and the PDCA cycles that
-- work on them.
--
-- The program. A user writes a goal draft and starts a goal; a goal is worked on in one cycle at a
-- time, with the frames plan, do, check and action; a completed cycle takes the goal into review,
-- where it is continued with the next cycle or terminated; a cycle can also be replanned. The domain
-- packages are pure rules on values. The use cases lock rows in a transaction, apply the rules, write
-- by compare-and-set on revisions, and read back what they report.
--
-- Files, and the code that they are about:
--   Base, GoStrings           the lists, results and machine integers of the model, and what the
--                             code uses of Go's strings, unicode and utf8 packages
--   Identifier                backend/internal/identifier/uuid.go
--   Domain/ReviewDate         ParseReviewDate of backend/internal/domain/cycle/cycle.go
--   Domain/Cycle              backend/internal/domain/cycle/cycle.go: Types (the records, New),
--                             Schedule (ParseFrame, ChangeReviewSchedule), Transitions (SaveFrame,
--                             ApplyAIAction, Complete, Cancel)
--   Domain/Goal               backend/internal/domain/goal/goal.go: Types, Texts (NormalizeText,
--                             SaveDraft), Review (EnterReview, ContinueReview), Transitions
--                             (StartInitial, Replan, Terminate)
--   Domain/Ai, Domain/User    backend/internal/domain/ai, backend/internal/domain/user/user.go
--   Application/Errors, Views backend/internal/application/workspace/types.go
--   Application/Tx            actions in a database transaction; WithinCycleTransaction of
--                             backend/internal/infrastructure/postgres/workspace_cycle_uow.go
--   Application/CycleTx       backend/internal/application/workspace/cycle_ports.go: the transaction
--                             interface as a record of actions on a database state
--   Application/ReviewTx      review_transition_ports.go of that package, and the inputs and results
--                             of its commands
--   Application/ReviewChecks, ReviewCommands
--                             ContinueReview and Terminate of review_transition_use_cases.go of that
--                             package, with the partition of a discarded draft's usages
--   Application/GoalChecks, CycleChecks, CycleSummaries, CycleResults
--                             the checks of views, receipts and results in cycle_use_cases.go,
--                             goal_use_cases.go of that package
--   Application/CycleCommands SaveFrame, ChangeReviewSchedule, CompleteCycle and ReplanCycle of
--                             backend/internal/application/workspace/cycle_use_cases.go, over any
--                             database that has the interface
--   Application/CycleListing  ListCycles, GetCycle and the cursor of a page, in cycle_use_cases.go
--   Application/GoalListing   ListGoals, GetGoal and the cursor of a page, in goal_use_cases.go
--   Application/GoalTx, GoalDeletion
--                             goal_ports.go of that package, and DeleteGoalWithResult of its
--                             goal_use_cases.go
--   Application/ContextSelector
--                             backend/internal/application/workspace/context_selector.go: Data,
--                             Input (the provider's input, its tokens and hash), Truncate, Select
--   Domain/CycleLaws, Domain/GoalLaws, Domain/Ai/Accepted, Domain/ReviewDate/RoundTrip,
--   GoStrings/Normalize, Order, Application/TxLaws, CycleLaws, ReviewLaws,
--   GoalListingLaws, GoalDeletionLaws, ContextLaws
--                             the theorems
--   Tests                     runs at concrete inputs; Tests/Store is a database of one goal
--
-- The model. A text is the list of its code points, an identifier a string, a time the number of
-- nanoseconds since Go's zero time. int64 and int32 are integers whose increments wrap around. An
-- error is a value of a type with a constructor for each error variable. A command is a function of
-- the database state that returns a result and the state left; after an error of the operation or of
-- the commit the state is what the connection pool's rollback leaves, a parameter, as are the errors
-- of its begin and commit. The clock's time and the next identifier are arguments; the request hash
-- (SHA-256 of JSON) is a parameter, and so is the codec of a cursor. The context selection takes
-- the token counter, the JSON encoder, the digest and the float product of an allocation as
-- parameters, and the access to a nil cycle is an error value. Loops are structural recursion; the
-- truncation loop counts its 16 attempts down, as the code counts them up: when they are spent, both
-- report that the budget is exceeded. There is no other fuel. A decimal amount is a string, whose sign
-- big.Rat reads: a parameter. A deletion's source state is reported with its success only.
--
-- Not modelled: the other use cases of backend/internal/application/workspace (drafts,
-- AI generations), sessions, accounts, cleanup, the HTTP API, and the SQL behind the
-- transaction interface. Nor are clients of external services, generated code, logging,
-- configuration, the frontend and the edge worker.
pub mod Base
pub mod GoStrings
pub mod Identifier
pub mod Domain
pub mod Application
pub mod Tests
