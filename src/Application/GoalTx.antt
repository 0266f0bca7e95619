-- ===== src/Application/GoalTx.antt =====
-- `GoalTx` of backend/internal/application/workspace/goal_ports.go, and what a deletion reads and
-- writes by it.
use cycle.Base.{ℤ, ℕ, Bool, Option, List, String}
use cycle.Domain.Cycle.{Time}
use cycle.Domain.Goal
use cycle.Application.Errors.{goal_invariant}
use cycle.Application.Tx.{Tx, Pool, require_rows}

pub record GoalDeleteReceipt : Type 0 where
  pub goal_id : String
  pub request_hash : String
  pub expires_at : Time

pub record GoalDeleteTarget : Type 0 where
  pub revision : ℤ
  pub status : Goal.Status

pub record GoalDeleteGeneration : Type 0 where
  pub id : String
  pub reserved_cost_usd : String

pub record GoalDeleteUsage : Type 0 where
  pub operation_id : String
  pub status : String
  pub quota_retain_until : Time
  pub provider_usage_finalized_at : Option Time

pub record MonthlyReservation : Type 0 where
  pub month_utc : Time
  pub amount_usd : String

pub record GoalDeleteReceiptRecord : Type 0 where
  pub user_id : String
  pub idempotency_key : String
  pub goal_id : String
  pub request_hash : String
  pub deleted_at : Time
  pub expires_at : Time

-- `none` for the state is the empty status that a replay leaves.
pub record GoalDeleteResult : Type 0 where
  pub source_state : Option Goal.Status
  pub replayed : Bool

-- The interface, with the pool that its transactions begin in.
pub record GoalTx (S : Type 0) : Type 0 where
  pub lock_user : String → Tx S (Unit {0})
  pub find_goal_delete_receipt : String → String → Tx S (Option GoalDeleteReceipt)
  pub lock_goal_for_delete : String → String → Tx S GoalDeleteTarget
  pub lock_goal_draft_ids : String → String → Tx S (List String)
  pub lock_goal_cycle_ids : String → String → Tx S (List String)
  pub lock_running_goal_generations : String → String → Tx S (List GoalDeleteGeneration)
  pub lock_goal_usages : String → String → Tx S (List GoalDeleteUsage)
  pub sum_locked_goal_reservations_by_month :
      String → String → List String → Tx S (List MonthlyReservation)
  pub release_goal_budget_reservation_cas : Time → String → Time → Tx S ℕ
  pub terminalize_goal_generation_cas : String → String → GoalDeleteGeneration → Time → Tx S ℕ
  pub fail_running_goal_usage_cas : String → String → String → Tx S ℕ
  pub redact_goal_usages_cas : String → String → List String → Tx S ℕ
  pub delete_expired_finalized_goal_usages_cas : String → String → List String → Time → Tx S ℕ
  pub delete_goal_cas : String → String → ℤ → Tx S ℕ
  pub insert_goal_delete_receipt : GoalDeleteReceiptRecord → Tx S ℕ
  pub pool : Pool S

-- `requireGoalRows`.
abbrev pub require_goal_rows : {S : Type 0} → String → ℕ → ℕ → Tx S (Unit {0})
require_goal_rows = require_rows goal_invariant
