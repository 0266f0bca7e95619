-- ===== src/Tests/CommandTests.antt =====
-- The commands run on a small database.
use cycle.Base.{
  pos, ◌≡◌, refl, true, false, none, [], Result, ok, err, String, inc64, inc32, dec32, add64,
  text_eq, is_ok,
}
use cycle.GoStrings.{
  codes, normalize_line_endings, has_forbidden, trim_space, trim_left, trim_right, is_space,
  byte_length,
}
use cycle.Domain.Cycle
use cycle.Domain.Cycle.{PdcaCycle, Frame, Status}
use cycle.Domain.Goal
use cycle.Domain.Goal.{Goal, Version}
use cycle.Application.Errors.{AppError}
use cycle.Application.Views.{
  SaveFrameInput, SaveFrameResult, ChangeReviewScheduleInput, CompleteCycleInput,
  CompleteCycleResult, ReplanCycleInput, ReplanCycleResult,
}
use cycle.Application.CycleCommands
use cycle.Application.CycleCommands.{HashedCompletion, HashedReplan}
use cycle.Application.CycleChecks.{
  validate_cycle_view, validate_cycle_status_times, validate_cycle_goal_version,
  validate_previous_completed_cycle_action, status_times_error,
}
use cycle.Application.GoalChecks.{goal_version_views_equal, validate_goal_current_work}
use cycle.Application.CycleResults.{
  validate_complete_cycle_receipt, validate_completed_cycle_result, materialization_error,
  validate_replan_cycle_receipt, validate_fresh_replan_cycle_result, validate_replan_cycle_pair,
}
use cycle.Application.CycleLaws.Edits.{FrameSaved, save_frame-FrameSaved}
use cycle.Application.CycleLaws.Commands.{Ran, complete_cycle-Ran}
use cycle.Application.CycleLaws.ReplanCommand.{RanReplan, replan_cycle-RanReplan}
use cycle.Identifier.{is_canonical_uuid_v7}
use cycle.Domain.ReviewDate
use cycle.Tests.Store.{Db, store}
use cycle.Application.Tx.{within, begun, finish, committed, require_rows}

abbrev pub goal_id : String
goal_id = "01890a5d-ac96-774b-bcce-b302099a8057"

abbrev pub version_id : String
version_id = "01890a5d-ac96-774b-bcce-b302099a8058"

abbrev pub cycle_id : String
cycle_id = "01890a5d-ac96-774b-bcce-b302099a8059"

abbrev pub new_id : String
new_id = "01890a5d-ac96-774b-bcce-b302099a805a"

abbrev pub goal : Goal
goal = record {
  id = goal_id;
  user_id = "u";
  status = Goal.Status.active_cycle;
  current_version_number = pos 1;
  next_cycle_sequence_number = pos 2;
  revision = pos 0;
  terminal_at = none;
  terminal_operation_id = none;
  terminal_request_hash = none;
  created_at = 1000;
  updated_at = 1000;
}

abbrev pub version : Version
version = record {
  id = version_id;
  user_id = "u";
  goal_id = goal_id;
  version_number = pos 1;
  body = codes "run";
  success_signal = none;
  created_by_operation_id = "start";
  created_at = 1000;
}

abbrev pub filled : PdcaCycle
filled = record (Cycle.new cycle_id "u" goal_id version_id (pos 1) "start" "hash" 1000) {
  plan = codes "p";
  do_ = codes "d";
  check = codes "c";
  action = codes "a";
  revisions = record { content = pos 4; plan = pos 1; do_ = pos 1; check = pos 1; action = pos 1 };
}

abbrev pub db : Db
db = record {
  goal = goal;
  version = version;
  latest = filled;
  previous = none;
  draft = none;
  generations = [];
  usages = [];
}

abbrev pub save_input : SaveFrameInput
save_input = record {
  user_id = "u";
  goal_id = goal_id;
  cycle_id = cycle_id;
  frame = Frame.plan;
  content = codes "new";
  expected_frame_revision = pos 1;
}

abbrev pub complete_input : CompleteCycleInput
complete_input = record {
  user_id = "u";
  goal_id = goal_id;
  cycle_id = cycle_id;
  operation_id = "op";
  expected_goal_revision = pos 0;
  expected_content_revision = pos 4;
}

abbrev pub replan_input : ReplanCycleInput
replan_input = record {
  user_id = "u";
  goal_id = goal_id;
  cycle_id = cycle_id;
  operation_id = "op";
  expected_goal_revision = pos 0;
  expected_content_revision = pos 4;
  expected_review_schedule_revision = pos 0;
  confirmed = true;
}

abbrev pub schedule_input : ChangeReviewScheduleInput
schedule_input = record {
  user_id = "u";
  goal_id = goal_id;
  cycle_id = cycle_id;
  review_date = none;
  expected_review_schedule_revision = pos 0;
}

abbrev pub hash_completion : HashedCompletion → String
hash_completion request = request.cycle_id

abbrev pub hash_replan : HashedReplan → String
hash_replan request = request.cycle_id

abbrev saved_run : Result AppError SaveFrameResult × Db
saved_run = CycleCommands.save_frame store save_input 5000 db

-- The value of a run that succeeded.
pub absurd_of : {A : Type 0} → false ≡ true → A
absurd_of h = cc

abbrev pub result_of : {A : Type 0} (r : Result AppError A) → is_ok r ≡ true → A
result_of (ok a) h = a
result_of (err e) h = absurd_of h

pub ran_ok :
    {A S : Type 0} (x : Result AppError A × S) (h : is_ok x.0 ≡ true)
    → ◌≡◌ {A = Result AppError A × S} x (ok (result_of x.0 h), x.1)
ran_ok (ok a, s) h = refl
ran_ok (err e, s) h = absurd_of h

abbrev completed_run : Result AppError CompleteCycleResult × Db
completed_run =
    CycleCommands.complete_cycle store hash_completion complete_input (ok new_id) 5000 db

abbrev replanned_run : Result AppError ReplanCycleResult × Db
replanned_run = CycleCommands.replan_cycle store hash_replan replan_input (ok new_id) 5000 db

saved_run-is_ok : is_ok saved_run.0 ≡ true
unfolding CycleCommands.save_frame Cycle.new Cycle.save_frame Cycle.normalize_and_validate_text
    has_forbidden normalize_line_endings text_eq
saved_run-is_ok = refl

completed_run-is_ok : is_ok completed_run.0 ≡ true
unfolding CycleCommands.complete_cycle CycleCommands.complete_in CycleCommands.complete_dispatch
    CycleCommands.perform_completion CycleCommands.complete_current CycleCommands.write_completion
    CycleCommands.complete_cycle_request validate_complete_cycle_receipt Cycle.complete
    Cycle.missing_required_frames Goal.enter_review Goal.new_review_draft
    validate_completed_cycle_result Cycle.new Cycle.is_blank trim_space trim_left trim_right
    is_space is_canonical_uuid_v7 validate_cycle_view add64 validate_cycle_status_times
    validate_cycle_goal_version validate_previous_completed_cycle_action inc64 inc32
    goal_version_views_equal status_times_error CycleCommands.load_current_version
    materialization_error committed finish begun require_rows within validate_goal_current_work
    dec32 text_eq Cycle.parse_review_date Cycle.is_valid_cancellation_reason ReviewDate.format
    ReviewDate.is_date ReviewDate.parse byte_length
completed_run-is_ok = refl

replanned_run-is_ok : is_ok replanned_run.0 ≡ true
unfolding CycleCommands.replan_cycle CycleCommands.replan_in CycleCommands.replan_dispatch
    CycleCommands.perform_replan CycleCommands.replan_current CycleCommands.after_claim
    CycleCommands.replan_cycle_request validate_replan_cycle_receipt Goal.replan Goal.replan_refused
    Cycle.cancel validate_fresh_replan_cycle_result validate_replan_cycle_pair Cycle.new
    Cycle.is_blank trim_space trim_left trim_right is_space is_canonical_uuid_v7 validate_cycle_view
    add64 validate_cycle_status_times validate_cycle_goal_version
    validate_previous_completed_cycle_action inc64 inc32 goal_version_views_equal status_times_error
    CycleCommands.load_current_version materialization_error committed finish begun require_rows
    within validate_goal_current_work dec32 text_eq Cycle.parse_review_date
    Cycle.is_valid_cancellation_reason ReviewDate.format ReviewDate.is_date ReviewDate.parse
    byte_length
replanned_run-is_ok = refl

save_frame-FrameSaved_example :
    FrameSaved store save_input 5000 db saved_run.1 (result_of saved_run.0 saved_run-is_ok)
save_frame-FrameSaved_example =
    save_frame-FrameSaved store save_input 5000 db (ran_ok saved_run saved_run-is_ok)

complete_cycle-Ran_example :
    Ran store hash_completion complete_input 5000 db
      (result_of completed_run.0 completed_run-is_ok)
      completed_run.1
complete_cycle-Ran_example =
    complete_cycle-Ran store hash_completion complete_input (ok new_id) 5000 db
      (ran_ok completed_run completed_run-is_ok)

replan_cycle-RanReplan_example :
    RanReplan store hash_replan replan_input 5000 db
      (result_of replanned_run.0 replanned_run-is_ok)
      replanned_run.1
replan_cycle-RanReplan_example =
    replan_cycle-RanReplan store hash_replan replan_input (ok new_id) 5000 db
      (ran_ok replanned_run replanned_run-is_ok)
