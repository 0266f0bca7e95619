-- ===== src/Tests/ReviewTests.antt =====
-- `ContinueReview` and `Terminate` run on a small database.
use cycle.Base.{
  pos, ◌≡◌, refl, true, false, none, some, List, [], ◌∷◌, Result, ok, String, inc64, inc32, dec32,
  add64, text_eq, text_lt, is_ok,
}
use cycle.GoStrings.{
  codes, normalize_line_endings, has_forbidden, trim_space, trim_left, trim_right, is_space,
  byte_length,
}
use cycle.Domain.Cycle
use cycle.Domain.Cycle.{PdcaCycle}
use cycle.Domain.Goal
use cycle.Domain.Goal.{Goal, Draft, DraftType}
use cycle.Application.Errors.{AppError}
use cycle.Application.Tx.{within, begun, finish, committed, require_rows}
use cycle.Application.ReviewTx.{
  ContinueReviewInput, ContinueReviewResult, TerminateInput, TerminateResult, DraftUsageState,
}
use cycle.Application.ReviewChecks
use cycle.Application.ReviewCommands
use cycle.Application.ReviewCommands.{HashedContinue, HashedTermination, Ids}
use cycle.Application.CycleChecks.{
  validate_cycle_view, validate_cycle_status_times, validate_cycle_goal_version,
  validate_previous_completed_cycle_action, status_times_error,
}
use cycle.Application.GoalChecks.{goal_version_views_equal, validate_goal_current_work}
use cycle.Application.ReviewLaws.ContinueCommand.{RanContinue, continue_review-RanContinue}
use cycle.Application.ReviewLaws.TerminateCommand.{RanTerminate, terminate-RanTerminate}
use cycle.Application.ReviewLaws.Usages.{IsPartition, partition_review_usages-IsPartition}
use cycle.Identifier.{is_canonical_uuid_v7}
use cycle.Domain.ReviewDate
use cycle.Tests.Store.{Db, review_store}
use cycle.Tests.CommandTests.{
  db, goal, filled, goal_id, version_id, cycle_id, new_id, ran_ok, result_of,
}

abbrev draft_id : String
draft_id = "01890a5d-ac96-774b-bcce-b302099a805b"

abbrev pub draft : Draft
draft = record {
  id = draft_id;
  user_id = "u";
  type = DraftType.review;
  goal_id = some goal_id;
  base_goal_version_id = some version_id;
  review_cycle_id = some cycle_id;
  body = codes "walk";
  success_signal = none;
  revision = pos 2;
  created_at = 5000;
  updated_at = 6000;
}

abbrev completed : PdcaCycle
completed = record filled {
  status = Cycle.Status.completed;
  completed_at = some 5000;
  completion_operation_id = some "op";
  completion_request_hash = some "h";
}

abbrev usages : List DraftUsageState
usages =
    record {
      operation_id = "a";
      quota_retain_until = 9000;
      provider_usage_finalized_at = some 6000;
    }
    ∷ record {
      operation_id = "b";
      quota_retain_until = 7000;
      provider_usage_finalized_at = some 6000;
    }
    ∷ []

abbrev pub reviewed : Db
reviewed = record db {
  goal = record goal { status = Goal.Status.goal_review; revision = pos 1 };
  latest = completed;
  draft = some draft;
  generations =
      record { id = "a"; status = "succeeded" } ∷ record { id = "b"; status = "failed" } ∷ [];
  usages = usages;
}

abbrev pub continue_input : ContinueReviewInput
continue_input = record {
  user_id = "u";
  goal_id = goal_id;
  operation_id = "go";
  expected_goal_revision = pos 1;
  expected_draft_revision = pos 2;
  request_hash = "";
  version_id = "";
  cycle_id = "";
  now = 0;
}

abbrev pub ids : Ids
ids = record { first = ok "01890a5d-ac96-774b-bcce-b302099a805c"; second = ok new_id }

abbrev pub stop_review : TerminateInput
stop_review = record {
  user_id = "u";
  goal_id = goal_id;
  operation_id = "stop";
  outcome = Goal.Status.achieved;
  expected_goal_revision = pos 1;
  expected_state = Goal.Status.goal_review;
  active_cycle_id = "";
  expected_cycle_content_revision = none;
  confirm_discard_review_draft = true;
  request_hash = "";
  now = 0;
}

abbrev pub stop_active : TerminateInput
stop_active = record stop_review {
  outcome = Goal.Status.ended;
  expected_goal_revision = pos 0;
  expected_state = Goal.Status.active_cycle;
  active_cycle_id = cycle_id;
  expected_cycle_content_revision = some (pos 4);
  confirm_discard_review_draft = false;
}

abbrev pub hash_continue : HashedContinue → String
hash_continue request = request.goal_id

abbrev pub hash_termination : HashedTermination → String
hash_termination request = request.goal_id

abbrev continued_run : Result AppError ContinueReviewResult × Db
continued_run =
    ReviewCommands.continue_review review_store hash_continue continue_input ids 8000 reviewed

abbrev stopped_review_run : Result AppError TerminateResult × Db
stopped_review_run =
    ReviewCommands.terminate review_store hash_termination stop_review 8000 reviewed

abbrev stopped_active_run : Result AppError TerminateResult × Db
stopped_active_run = ReviewCommands.terminate review_store hash_termination stop_active 8000 db

continued_run-is_ok : is_ok continued_run.0 ≡ true
unfolding ReviewCommands.continue_review ReviewCommands.continue_in ReviewCommands.continue_dispatch
    ReviewCommands.continue_found ReviewCommands.perform_continue ReviewCommands.continue_draft
    ReviewCommands.continue_current ReviewCommands.write_continued ReviewCommands.insert_version
    ReviewCommands.after_claim ReviewCommands.read_continued ReviewCommands.new_ids
    ReviewCommands.continue_review_request ReviewChecks.validate_continue_review_receipt
    ReviewChecks.validate_locked_review_draft ReviewChecks.validate_review_generations
    ReviewChecks.validate_generations_after ReviewChecks.ascends_from ReviewChecks.is_known
    ReviewChecks.validate_review_usages ReviewChecks.validate_usages_after
    ReviewChecks.review_usage_ids ReviewChecks.validate_review_current_version
    ReviewChecks.validate_fresh_continue_review_result ReviewChecks.materialization_error
    ReviewChecks.goal_version_view_matches_domain Goal.continue_review Goal.review_content_changed
    Goal.validate_review_references Goal.normalize_text Goal.normalize_success_signal Cycle.new
    Cycle.is_blank trim_space trim_left trim_right is_space is_canonical_uuid_v7 validate_cycle_view
    add64 validate_cycle_status_times validate_cycle_goal_version has_forbidden
    normalize_line_endings validate_previous_completed_cycle_action inc64 inc32 status_times_error
    committed finish begun require_rows within validate_goal_current_work dec32 text_eq text_lt
    Cycle.parse_review_date ReviewDate.format ReviewDate.is_date ReviewDate.parse byte_length
continued_run-is_ok = refl

stopped_review_run-is_ok : is_ok stopped_review_run.0 ≡ true
unfolding ReviewCommands.terminate ReviewCommands.terminate_valid ReviewCommands.terminate_in
    ReviewCommands.terminate_dispatch ReviewCommands.terminate_state
    ReviewCommands.terminate_goal_review ReviewCommands.terminate_draft
    ReviewCommands.terminate_reviewed ReviewCommands.write_reviewed_termination
    ReviewCommands.read_reviewed ReviewCommands.terminate_request
    ReviewChecks.validate_termination_input ReviewChecks.validate_goal_termination_receipt
    ReviewChecks.validate_locked_review_draft ReviewChecks.validate_review_generations
    ReviewChecks.validate_generations_after ReviewChecks.ascends_from ReviewChecks.is_known
    ReviewChecks.validate_review_usages ReviewChecks.validate_usages_after
    ReviewChecks.partition_review_usages ReviewChecks.partition_usages ReviewChecks.is_live
    ReviewChecks.is_sorted ReviewChecks.validate_review_current_version
    ReviewChecks.validate_fresh_termination_result ReviewChecks.validate_termination_result
    ReviewChecks.goal_version_view_matches_domain ReviewChecks.materialization_error
    Goal.review_draft_differs_from_version Goal.validate_review_references
    Goal.normalize_success_signal Goal.terminate normalize_line_endings has_forbidden inc64
    committed finish begun require_rows within validate_goal_current_work text_eq text_lt trim_space
    trim_left trim_right is_space
stopped_review_run-is_ok = refl

stopped_active_run-is_ok : is_ok stopped_active_run.0 ≡ true
unfolding ReviewCommands.terminate ReviewCommands.terminate_valid ReviewCommands.terminate_in
    ReviewCommands.terminate_dispatch ReviewCommands.terminate_state
    ReviewCommands.terminate_active_cycle ReviewCommands.terminate_current
    ReviewCommands.write_active_termination ReviewCommands.read_active
    ReviewCommands.terminate_request ReviewChecks.validate_termination_input
    ReviewChecks.validate_goal_termination_receipt ReviewChecks.cancellation_reason_of
    ReviewChecks.validate_fresh_termination_result ReviewChecks.validate_termination_result
    ReviewChecks.canceled_cycle_view_matches_domain ReviewChecks.materialization_error Cycle.cancel
    Goal.terminate Cycle.new is_canonical_uuid_v7 validate_cycle_view add64
    validate_cycle_status_times validate_cycle_goal_version goal_version_views_equal
    validate_previous_completed_cycle_action inc64 inc32 status_times_error committed finish begun
    require_rows within validate_goal_current_work dec32 text_eq Cycle.parse_review_date
    Cycle.is_valid_cancellation_reason ReviewDate.format ReviewDate.is_date ReviewDate.parse
    byte_length
stopped_active_run-is_ok = refl

continue_review-RanContinue_example :
    RanContinue review_store hash_continue continue_input ids 8000 reviewed
      (result_of continued_run.0 continued_run-is_ok)
      continued_run.1
continue_review-RanContinue_example =
    continue_review-RanContinue review_store hash_continue continue_input ids 8000 reviewed
      (ran_ok continued_run continued_run-is_ok)

terminate-RanTerminate_example :
    RanTerminate review_store hash_termination stop_review 8000 reviewed
      (result_of stopped_review_run.0 stopped_review_run-is_ok)
      stopped_review_run.1
terminate-RanTerminate_example =
    terminate-RanTerminate review_store hash_termination stop_review 8000 reviewed
      (ran_ok stopped_review_run stopped_review_run-is_ok)

partition_review_usages-IsPartition_example :
    IsPartition ("a" ∷ "b" ∷ []) usages 8000 ("a" ∷ [], "b" ∷ [])
unfolding ReviewChecks.partition_review_usages ReviewChecks.validate_review_usages
    ReviewChecks.validate_usages_after ReviewChecks.is_known ReviewChecks.is_sorted
    ReviewChecks.partition_usages ReviewChecks.is_live text_lt
partition_review_usages-IsPartition_example =
    partition_review_usages-IsPartition ("a" ∷ "b" ∷ []) usages 8000 refl
