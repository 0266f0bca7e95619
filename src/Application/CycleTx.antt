-- ===== src/Application/CycleTx.antt =====
-- `CycleUnitOfWork` and `CycleTx` of backend/internal/application/workspace/cycle_ports.go.
use cycle.Base.{ℤ, ℕ, Bool, Option, String}
use cycle.Domain.Cycle.{PdcaCycle, Frame, CancellationReason}
use cycle.Domain.Goal.{Goal, Version, Draft}
use cycle.Application.Errors.{cycle_invariant}
use cycle.Application.Views.{GoalView, CycleView, DraftView}
use cycle.Application.Tx.{Tx, Pool, require_rows}

pub record CompleteCycleReceipt : Type 0 where
  pub goal_id : String
  pub cycle_id : String
  pub request_hash : String

pub record ReplanCycleReceipt : Type 0 where
  pub goal_id : String
  pub cycle_id : String
  pub request_hash : String
  pub replanned_cycle_id : String
  pub replanned_cancellation_reason : Option CancellationReason

-- The interface, with the pool that its transactions begin in.
pub record CycleTx (S : Type 0) : Type 0 where
  pub find_complete_cycle_receipt : String → String → Tx S (Option CompleteCycleReceipt)
  pub find_replan_cycle_receipt : String → String → Tx S (Option ReplanCycleReceipt)
  pub lock_user : String → Tx S (Unit {0})
  pub lock_goal : String → String → Tx S Goal
  pub lock_cycle : String → String → String → Tx S PdcaCycle
  pub load_current_goal_version : String → String → ℤ → Tx S Version
  pub has_running_cycle_generation : String → String → String → Tx S Bool
  pub save_cycle_frame_cas : PdcaCycle → Frame → ℤ → Tx S ℕ
  pub save_cycle_review_schedule_cas : PdcaCycle → ℤ → Tx S ℕ
  pub complete_cycle_cas : PdcaCycle → ℤ → Tx S ℕ
  pub cancel_cycle_cas : PdcaCycle → ℤ → Tx S ℕ
  pub try_insert_cycle_claim : PdcaCycle → Tx S ℕ
  pub replan_goal_cas : Goal → ℤ → Tx S ℕ
  pub insert_review_draft : Draft → Tx S ℕ
  pub enter_goal_review_cas : Goal → ℤ → Tx S ℕ
  pub load_goal_view : String → String → Tx S GoalView
  pub load_cycle_view : String → String → String → Tx S CycleView
  pub find_review_draft_by_cycle : String → String → String → Tx S (Option DraftView)
  pub pool : Pool S

-- `requireCycleRows`.
abbrev pub require_cycle_rows : {S : Type 0} → String → ℕ → ℕ → Tx S (Unit {0})
require_cycle_rows = require_rows cycle_invariant
