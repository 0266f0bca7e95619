-- ===== src/Tests/DeletionTests.antt =====
-- `DeleteGoalWithResult` run on a small database.
use cycle.Base.{
  ℤ, pos, ◌≡◌, refl, true, Option, none, some, List, [], ◌∷◌, length, Result, ok, err, String,
  is_ok, text_lt,
}
use cycle.Domain.Goal
use cycle.Application.Errors.{AppError, goal_not_found}
use cycle.Application.Tx.{within, begun, finish, committed, require_rows}
use cycle.Application.GoalTx.{
  GoalTx, GoalDeleteTarget, GoalDeleteGeneration, GoalDeleteUsage, MonthlyReservation,
  GoalDeleteReceipt, GoalDeleteReceiptRecord, GoalDeleteResult,
}
use cycle.Application.ReviewChecks.{is_known, is_sorted}
use cycle.Application.GoalDeletion
use cycle.Application.GoalDeletion.{DeleteGoalInput, HashedDeletion, receipt_of}
use cycle.Application.GoalDeletionLaws.Outcome.{RanDeletion}
use cycle.Application.GoalDeletionLaws.Deleted.{delete_goal_with_result-RanDeletion}
use cycle.Tests.Store.{pool}
use cycle.Tests.CommandTests.{goal_id, ran_ok, result_of}

-- A goal with a draft, two cycles, a running generation and its usages.
record GoalDb : Type 0 where
  target : Option GoalDeleteTarget
  receipt : Option GoalDeleteReceiptRecord
  generations : List GoalDeleteGeneration
  monthly : List MonthlyReservation
  usages : List GoalDeleteUsage

abbrev found_target : Option GoalDeleteTarget → Result AppError GoalDeleteTarget
found_target none = err goal_not_found
found_target (some target) = ok target

abbrev found_receipt : Option GoalDeleteReceiptRecord → Option GoalDeleteReceipt
found_receipt none = none
found_receipt (some r) =
    some (record { goal_id = r.goal_id; request_hash = r.request_hash; expires_at = r.expires_at })

abbrev goal_store : GoalTx GoalDb
goal_store = record {
  lock_user = λ user db. (ok tt, db);
  find_goal_delete_receipt = λ user key db. (ok (found_receipt db.receipt), db);
  lock_goal_for_delete = λ user goal db. (found_target db.target, db);
  lock_goal_draft_ids = λ user goal db. (ok ("d" ∷ []), db);
  lock_goal_cycle_ids = λ user goal db. (ok ("a" ∷ "b" ∷ []), db);
  lock_running_goal_generations = λ user goal db. (ok db.generations, db);
  lock_goal_usages = λ user goal db. (ok db.usages, db);
  sum_locked_goal_reservations_by_month = λ user goal ids db. (ok db.monthly, db);
  release_goal_budget_reservation_cas = λ month amount now db. (ok 1, record db { monthly = [] });
  terminalize_goal_generation_cas =
      λ user goal generation now db. (ok 1, record db { generations = [] });
  fail_running_goal_usage_cas = λ user goal id db. (ok 1, db);
  redact_goal_usages_cas = λ user goal ids db. (ok (length ids), db);
  delete_expired_finalized_goal_usages_cas = λ user goal ids now db. (ok (length ids), db);
  delete_goal_cas = λ user goal revision db. (ok 1, record db { target = none; usages = [] });
  insert_goal_delete_receipt = λ r db. (ok 1, record db { receipt = some r });
  pool = pool;
}

abbrev usages : List GoalDeleteUsage
usages =
    record {
      operation_id = "a";
      status = "failed";
      quota_retain_until = 9000;
      provider_usage_finalized_at = some 6000;
    }
    ∷ record {
      operation_id = "b";
      status = "succeeded";
      quota_retain_until = 7000;
      provider_usage_finalized_at = some 6000;
    }
    ∷ []

abbrev goal_db : GoalDb
goal_db = record {
  target = some (record { revision = pos 3; status = Goal.Status.active_cycle });
  receipt = none;
  generations = record { id = "a"; reserved_cost_usd = "0.5" } ∷ [];
  monthly = record { month_utc = 1000; amount_usd = "0.5" } ∷ [];
  usages = usages;
}

abbrev input : DeleteGoalInput
input = record {
  user_id = "u";
  goal_id = goal_id;
  confirmed = true;
  expected_revision = pos 3;
  idempotency_key = "key";
}

abbrev sign_of : String → Option ℤ
sign_of value = some (pos 1)

abbrev hash_deletion : HashedDeletion → String
hash_deletion request = request.goal_id

abbrev run : Result AppError GoalDeleteResult × GoalDb
run = GoalDeletion.delete_goal_with_result goal_store sign_of hash_deletion input 8000 goal_db

run-is_ok : is_ok run.0 ≡ true
unfolding GoalDeletion.delete_goal_with_result within begun finish committed require_rows
    GoalDeletion.delete_in GoalDeletion.delete_dispatch GoalDeletion.delete_fresh
    GoalDeletion.delete_with_generations GoalDeletion.delete_with_usages GoalDeletion.delete_row
    GoalDeletion.delete_request GoalDeletion.release_months GoalDeletion.terminalize_generations
    GoalDeletion.redact_usages GoalDeletion.delete_usages GoalDeletion.require_goal_id_order
    GoalDeletion.require_goal_generation_order GoalDeletion.require_complete
    GoalDeletion.require_goal_monthly_reservation_order GoalDeletion.require_months_after
    GoalDeletion.valid_positive_goal_decimal GoalDeletion.has_slash GoalDeletion.is_later
    GoalDeletion.partition_goal_delete_usages GoalDeletion.require_distinct
    GoalDeletion.split_usages GoalDeletion.is_redacted GoalDeletion.has_repeat is_known is_sorted
    text_lt
run-is_ok = refl

delete_goal_with_result-RanDeletion_example :
    RanDeletion goal_store hash_deletion input 8000 goal_db (result_of run.0 run-is_ok) run.1
delete_goal_with_result-RanDeletion_example =
    delete_goal_with_result-RanDeletion goal_store sign_of hash_deletion input 8000 goal_db
      (ran_ok run run-is_ok)
