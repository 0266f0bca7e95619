-- ===== src/Application/GoalDeletion/Command.antt =====
-- `DeleteGoalWithResult` and `DeleteGoal` of
-- backend/internal/application/workspace/goal_use_cases.go. The source state that a failed deletion
-- leaves beside its error is not in the model.
use cycle.Base.{
  ℤ, ◌+◌, Bool, true, false, not, ◌||◌, Option, none, some, List, [], ◌∷◌, length, String, str_eq,
  int_eq, ltb, if◌then◌else◌,
}
use cycle.Domain.Cycle.{Time}
use cycle.Application.Errors.{delete_confirmation, delete_conflict, idempotency_key_reused}
use cycle.Application.Tx.{Tx, pure, raise, lift, ◌>>=◌, ◌>>◌, fail_when, within, require_rows}
use cycle.Application.GoalTx.{
  GoalTx, GoalDeleteReceipt, GoalDeleteGeneration, MonthlyReservation, GoalDeleteReceiptRecord,
  GoalDeleteResult, require_goal_rows,
}
use cycle.Application.GoalDeletion.Checks.{
  require_goal_id_order, require_goal_generation_order, require_goal_monthly_reservation_order,
  generation_ids_of, partition_goal_delete_usages,
}

-- The arguments of the command.
pub record DeleteGoalInput : Type 0 where
  pub user_id : String
  pub goal_id : String
  pub confirmed : Bool
  pub expected_revision : ℤ
  pub idempotency_key : String

-- What the request hash is of.
pub record HashedDeletion : Type 0 where
  pub goal_id : String
  pub confirmed : Bool
  pub revision : ℤ

-- 24 hours.
abbrev pub goal_delete_receipt_ttl : Time
goal_delete_receipt_ttl = 86400000000000

unfoldable pub delete_request : DeleteGoalInput → HashedDeletion
delete_request input = record {
  goal_id = input.goal_id;
  confirmed = input.confirmed;
  revision = input.expected_revision;
}

abbrev pub receipt_of : DeleteGoalInput → String → Time → GoalDeleteReceiptRecord
receipt_of input request_hash now = record {
  user_id = input.user_id;
  idempotency_key = input.idempotency_key;
  goal_id = input.goal_id;
  request_hash = request_hash;
  deleted_at = now;
  expires_at = now + goal_delete_receipt_ttl;
}

module _ {S : Type 0} (tx : GoalTx S) where
  unfoldable pub release_months : Time → List MonthlyReservation → Tx S (Unit {0})
  unfolding require_rows
  release_months now [] = pure tt
  release_months now (reservation ∷ monthly) = do
    rows ← tx.release_goal_budget_reservation_cas reservation.month_utc reservation.amount_usd now
    require_goal_rows "release Goal Delete budget reservation" rows 1
    release_months now monthly

  unfoldable pub terminalize_generations :
      DeleteGoalInput → Time → List GoalDeleteGeneration → Tx S (Unit {0})
  unfolding require_rows
  terminalize_generations input now [] = pure tt
  terminalize_generations input now (generation ∷ generations) = do
    rows ← tx.terminalize_goal_generation_cas input.user_id input.goal_id generation now
    require_goal_rows "terminalize Goal Delete generation" rows 1
    rows ← tx.fail_running_goal_usage_cas input.user_id input.goal_id generation.id
    require_goal_rows "terminalize Goal Delete usage" rows 1
    terminalize_generations input now generations

  unfoldable pub redact_usages : DeleteGoalInput → List String → Tx S (Unit {0})
  unfolding require_rows
  redact_usages input [] = pure tt
  redact_usages input (id ∷ ids) = do
    rows ← tx.redact_goal_usages_cas input.user_id input.goal_id (id ∷ ids)
    require_goal_rows "redact Goal Delete usage" rows (length (id ∷ ids))

  unfoldable pub delete_usages : DeleteGoalInput → Time → List String → Tx S (Unit {0})
  unfolding require_rows
  delete_usages input now [] = pure tt
  delete_usages input now (id ∷ ids) = do
    rows ← tx.delete_expired_finalized_goal_usages_cas input.user_id input.goal_id (id ∷ ids) now
    require_goal_rows "delete expired Goal usage" rows (length (id ∷ ids))

  -- The deletion itself and its receipt.
  unfoldable pub delete_row :
      DeleteGoalInput → String → Time → GoalDeleteResult → Tx S GoalDeleteResult
  unfolding require_rows
  delete_row input request_hash now result = do
    rows ← tx.delete_goal_cas input.user_id input.goal_id input.expected_revision
    require_goal_rows "delete Goal" rows 1
    rows ← tx.insert_goal_delete_receipt (receipt_of input request_hash now)
    require_goal_rows "insert Goal Delete receipt" rows 1
    pure result

  -- The usages, once no generation runs.
  unfoldable pub delete_with_usages :
      DeleteGoalInput → String → Time → GoalDeleteResult → Tx S GoalDeleteResult
  unfolding partition_goal_delete_usages redact_usages delete_usages delete_row
  delete_with_usages input request_hash now result = do
    usages ← tx.lock_goal_usages input.user_id input.goal_id
    parts ← lift (partition_goal_delete_usages usages now)
    redact_usages input parts.0
    delete_usages input now parts.1
    delete_row input request_hash now result

  module _ (sign_of : String → Option ℤ) where
    -- The reservations and the generations that run.
    unfoldable pub delete_with_generations :
        DeleteGoalInput → String → Time → GoalDeleteResult → Tx S GoalDeleteResult
    unfolding require_goal_generation_order require_goal_monthly_reservation_order release_months
        terminalize_generations delete_with_usages
    delete_with_generations input request_hash now result = do
      generations ← tx.lock_running_goal_generations input.user_id input.goal_id
      lift (require_goal_generation_order generations)
      monthly ←
          tx.sum_locked_goal_reservations_by_month input.user_id input.goal_id
            (generation_ids_of generations)
      lift (require_goal_monthly_reservation_order sign_of monthly)
      release_months now monthly
      terminalize_generations input now generations
      delete_with_usages input request_hash now result

    -- The deletion of a goal that no receipt replays.
    unfoldable pub delete_fresh : DeleteGoalInput → String → Time → Tx S GoalDeleteResult
    unfolding require_goal_id_order delete_with_generations
    delete_fresh input request_hash now = do
      target ← tx.lock_goal_for_delete input.user_id input.goal_id
      fail_when (not (int_eq target.revision input.expected_revision)) delete_conflict
      draft_ids ← tx.lock_goal_draft_ids input.user_id input.goal_id
      lift (
          require_goal_id_order "Goal Draft rows are not locked in UUID order"
            "Goal Draft lock returned a duplicate row" draft_ids)
      cycle_ids ← tx.lock_goal_cycle_ids input.user_id input.goal_id
      lift (
          require_goal_id_order "Cycle rows are not locked in UUID order"
            "Cycle lock returned a duplicate row" cycle_ids)
      delete_with_generations input request_hash now
          (record { source_state = some target.status; replayed = false })

    -- A receipt of this request replays until it expires.
    unfoldable pub delete_dispatch :
        Option GoalDeleteReceipt → DeleteGoalInput → String → Time → Tx S GoalDeleteResult
    unfolding delete_fresh
    delete_dispatch none input request_hash now = delete_fresh input request_hash now
    delete_dispatch (some receipt) input request_hash now = do
      fail_when
          (not (str_eq receipt.goal_id input.goal_id)
            || not (str_eq receipt.request_hash request_hash))
          idempotency_key_reused
      if ltb now receipt.expires_at
          then pure (record { source_state = none; replayed = true })
          else delete_fresh input request_hash now

    unfoldable pub delete_in : DeleteGoalInput → String → Time → Tx S GoalDeleteResult
    unfolding delete_dispatch
    delete_in input request_hash now = do
      tx.lock_user input.user_id
      receipt ← tx.find_goal_delete_receipt input.user_id input.idempotency_key
      delete_dispatch receipt input request_hash now

    unfoldable pub delete_goal_with_result :
        (HashedDeletion → String) → DeleteGoalInput → Time → Tx S GoalDeleteResult
    unfolding within delete_in delete_request
    delete_goal_with_result hash input now =
        if not input.confirmed
        then raise delete_confirmation
        else within tx.pool (delete_in input (hash (delete_request input)) now)

    unfoldable pub delete_goal :
        (HashedDeletion → String) → DeleteGoalInput → Time → Tx S (Unit {0})
    unfolding delete_goal_with_result
    delete_goal hash input now = do delete_goal_with_result hash input now; pure tt
