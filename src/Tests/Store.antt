-- ===== src/Tests/Store.antt =====
-- A database of one goal, its newest version, its newest cycle, the cycle before it and the draft of
-- its review with its generations and usages: a transaction interface to run the commands on.
use cycle.Base.{
  pos, ℕ, Bool, false, not, Option, none, some, List, [], length, String, str_eq, int_eq,
  if◌then◌else◌, Result, ok, err,
}
use cycle.Domain.Cycle
use cycle.Domain.Goal
use cycle.Domain.Cycle.{PdcaCycle, is_set, frame_revision}
use cycle.Domain.Goal.{Goal, Version, Draft}
use cycle.Application.Errors.{AppError, goal_not_found, cycle_not_found, not_found}
use cycle.Application.Views.{
  GoalVersionView, DraftView, CycleView, GoalView, CurrentWorkView, WorkKind, CyclePredecessorView,
  PreviousCompletedCycleActionView,
}
use cycle.Application.Tx.{Pool}
use cycle.Application.CycleTx.{CycleTx, CompleteCycleReceipt, ReplanCycleReceipt}
use cycle.Application.ReviewTx.{
  ReviewTx, DraftGenerationState, DraftUsageState, ContinueReviewReceipt, GoalTerminationReceipt,
}

pub record Db : Type 0 where
  pub goal : Goal
  pub version : Version
  pub latest : PdcaCycle
  pub previous : Option PdcaCycle
  pub draft : Option Draft
  pub generations : List DraftGenerationState
  pub usages : List DraftUsageState

abbrev version_view : Version → GoalVersionView
version_view v = record {
  id = v.id;
  version_number = v.version_number;
  body = v.body;
  success_signal = v.success_signal;
  created_at = v.created_at;
}

-- A completed predecessor hands its action on.
abbrev previous_action : Version → Option PdcaCycle → Option PreviousCompletedCycleActionView
previous_action v none = none
previous_action v (some c) =
    if is_set c.completed_at
    then some (record {
      cycle_id = c.id;
      cycle_sequence_number = c.sequence_number;
      goal_version_number = v.version_number;
      action = c.action;
    })
    else none

abbrev predecessor_of : Version → Option PdcaCycle → Option CyclePredecessorView
predecessor_of v none = none
predecessor_of v (some c) = some (record {
  cycle_id = c.id;
  cycle_sequence_number = c.sequence_number;
  status = c.status;
  cancellation_reason = c.cancellation_reason;
  goal_version_number = v.version_number;
})

-- Only an active cycle shows its predecessor.
abbrev shown : PdcaCycle → Option PdcaCycle → Option PdcaCycle
shown c previous = if Cycle.is_active c.status then previous else none

abbrev cycle_view : Version → Option PdcaCycle → PdcaCycle → CycleView
cycle_view v previous c = record {
  id = c.id;
  goal_id = c.goal_id;
  sequence_number = c.sequence_number;
  status = c.status;
  goal_version = version_view v;
  previous_completed_cycle_action = previous_action v (shown c previous);
  started_at = c.started_at;
  completed_at = c.completed_at;
  canceled_at = c.canceled_at;
  cancellation_reason = c.cancellation_reason;
  plan = c.plan;
  do_ = c.do_;
  check = c.check;
  action = c.action;
  content_revision = c.revisions.content;
  frame_revisions = record {
    plan = c.revisions.plan;
    do_ = c.revisions.do_;
    check = c.revisions.check;
    action = c.revisions.action;
  };
  review_date = c.review_date;
  review_schedule_revision = c.review_schedule_revision;
  predecessor = predecessor_of v (shown c previous);
}

abbrev find_previous : Db → String → Option PdcaCycle → Result AppError CycleView
find_previous db id none = err cycle_not_found
find_previous db id (some c) =
    if str_eq c.id id then ok (cycle_view db.version none c) else err cycle_not_found

abbrev find_cycle_view : Db → String → Result AppError CycleView
find_cycle_view db id =
    let previous = find_previous db id db.previous in
    if str_eq db.latest.id id then ok (cycle_view db.version db.previous db.latest) else previous

abbrev active_work : PdcaCycle → CurrentWorkView
active_work c = record {
  kind = WorkKind.active_cycle;
  cycle_id = c.id;
  cycle_sequence_number = c.sequence_number;
  review_schedule = some (record {
    review_date = c.review_date;
    review_schedule_revision = c.review_schedule_revision;
  });
  review_draft_id = "";
  trigger_cycle_id = "";
  trigger_cycle_sequence_number = pos 0;
}

abbrev work_of : Goal.Status → PdcaCycle → Option Draft → Option CurrentWorkView
work_of Goal.Status.active_cycle c draft = some (active_work c)
work_of Goal.Status.goal_review c (some draft) = some (record {
  kind = WorkKind.goal_review;
  cycle_id = "";
  cycle_sequence_number = pos 0;
  review_schedule = none;
  review_draft_id = draft.id;
  trigger_cycle_id = c.id;
  trigger_cycle_sequence_number = c.sequence_number;
})
work_of status c draft = none

abbrev goal_view : Db → GoalView
goal_view db = record {
  id = db.goal.id;
  status = db.goal.status;
  revision = db.goal.revision;
  current_version = version_view db.version;
  current_work = work_of db.goal.status db.latest db.draft;
  next_cycle_sequence_number = db.goal.next_cycle_sequence_number;
  cycle_count = pos 1;
  created_at = db.goal.created_at;
  terminal_at = db.goal.terminal_at;
}

abbrev draft_view : Option Draft → Option DraftView
draft_view none = none
draft_view (some d) = some (record {
  id = d.id;
  draft_type = d.type;
  goal_id = d.goal_id;
  base_goal_version_id = d.base_goal_version_id;
  review_cycle_id = d.review_cycle_id;
  body = d.body;
  success_signal = d.success_signal;
  revision = d.revision;
  updated_at = d.updated_at;
  replayed = false;
})

abbrev completion_receipt :
    PdcaCycle → String → Option String → Option String → Option CompleteCycleReceipt
completion_receipt c op (some done) (some hash) =
    if str_eq done op
    then some (record { goal_id = c.goal_id; cycle_id = c.id; request_hash = hash })
    else none
completion_receipt c op _ _ = none

abbrev replan_receipt : PdcaCycle → String → Option PdcaCycle → Option ReplanCycleReceipt
replan_receipt c op none = none
replan_receipt c op (some previous) =
    if str_eq c.start_operation_id op
    then some (record {
      goal_id = c.goal_id;
      cycle_id = c.id;
      request_hash = c.start_request_hash;
      replanned_cycle_id = previous.id;
      replanned_cancellation_reason = previous.cancellation_reason;
    })
    else none

abbrev continue_receipt : PdcaCycle → String → Option PdcaCycle → Option ContinueReviewReceipt
continue_receipt c op none = none
continue_receipt c op (some previous) =
    if str_eq c.start_operation_id op
    then some (record {
      goal_id = c.goal_id;
      cycle_id = c.id;
      request_hash = c.start_request_hash;
      version_created = false;
    })
    else none

abbrev termination_receipt :
    Goal → String → Option String → Option String → Option GoalTerminationReceipt
termination_receipt g op (some done) (some hash) =
    if str_eq done op then some (record { goal_id = g.id; request_hash = hash }) else none
termination_receipt g op _ _ = none

-- A row that is written only if the test on it holds.
abbrev pub write_if : Bool → Db → Db → Result AppError ℕ × Db
write_if test next db = if test then (ok 1, next) else (ok 0, db)

-- Nothing fails to begin or to commit, and a rollback undoes what was done.
abbrev pub pool : {S : Type 0} → Pool S
pool = record {
  begin_error = λ db. none;
  commit_error = λ db. none;
  rollback = λ before after. before;
}

abbrev pub store : CycleTx Db
store = record {
  find_complete_cycle_receipt = λ user op db. (
    ok (
        completion_receipt db.latest op db.latest.completion_operation_id
          db.latest.completion_request_hash),
    db,
  );
  find_replan_cycle_receipt = λ user op db. (ok (replan_receipt db.latest op db.previous), db);
  lock_user = λ user db. (ok tt, db);
  lock_goal = λ user id db. (if str_eq db.goal.id id then ok db.goal else err goal_not_found, db);
  lock_cycle =
      λ user goal id db. (if str_eq db.latest.id id then ok db.latest else err cycle_not_found, db);
  load_current_goal_version = λ user goal number db.
      (if int_eq db.version.version_number number then ok db.version else err not_found, db);
  has_running_cycle_generation = λ user goal id db. (ok false, db);
  save_cycle_frame_cas = λ c frame e db.
      write_if (int_eq (frame_revision db.latest frame) e) (record db { latest = c }) db;
  save_cycle_review_schedule_cas = λ c e db.
      write_if (int_eq db.latest.review_schedule_revision e) (record db { latest = c }) db;
  complete_cycle_cas =
      λ c e db. write_if (int_eq db.latest.revisions.content e) (record db { latest = c }) db;
  cancel_cycle_cas =
      λ c e db. write_if (int_eq db.latest.revisions.content e) (record db { latest = c }) db;
  try_insert_cycle_claim = λ c db.
      write_if (not (Cycle.is_active db.latest.status))
        (record db { latest = c; previous = some db.latest }) db;
  replan_goal_cas = λ g e db. write_if (int_eq db.goal.revision e) (record db { goal = g }) db;
  insert_review_draft = λ d db. write_if (not (is_set db.draft)) (record db { draft = some d }) db;
  enter_goal_review_cas =
      λ g e db. write_if (int_eq db.goal.revision e) (record db { goal = g }) db;
  load_goal_view = λ user id db. (ok (goal_view db), db);
  load_cycle_view = λ user goal id db. (find_cycle_view db id, db);
  find_review_draft_by_cycle = λ user goal id db. (ok (draft_view db.draft), db);
  pool = pool;
}

-- The draft of the review, if it is there.
abbrev found_draft : Option Draft → Result AppError Draft
found_draft none = err not_found
found_draft (some draft) = ok draft

abbrev pub review_store : ReviewTx Db
review_store = record {
  find_continue_review_receipt = λ user op db. (ok (continue_receipt db.latest op db.previous), db);
  find_goal_termination_receipt = λ user op db. (
    ok (termination_receipt db.goal op db.goal.terminal_operation_id db.goal.terminal_request_hash),
    db,
  );
  lock_user = λ user db. (ok tt, db);
  lock_goal = λ user id db. (if str_eq db.goal.id id then ok db.goal else err goal_not_found, db);
  lock_cycle =
      λ user goal id db. (if str_eq db.latest.id id then ok db.latest else err cycle_not_found, db);
  lock_review_draft = λ user goal db. (found_draft db.draft, db);
  load_current_goal_version = λ user goal number db.
      (if int_eq db.version.version_number number then ok db.version else err not_found, db);
  has_running_goal_generation = λ user goal db. (ok false, db);
  lock_draft_generations = λ user draft db. (ok db.generations, db);
  lock_draft_usages = λ user ids db. (ok db.usages, db);
  insert_goal_version = λ v db. (ok 1, record db { version = v });
  try_insert_review_cycle_claim = λ c db.
      write_if (not (Cycle.is_active db.latest.status))
        (record db { latest = c; previous = some db.latest }) db;
  continue_goal_cas = λ g e db. write_if (int_eq db.goal.revision e) (record db { goal = g }) db;
  attach_draft_generations = λ user draft ids goal version db.
      (ok (length db.generations), record db { generations = [] });
  attach_usage_to_goal = λ user ids goal db. (ok (length db.usages), record db { usages = [] });
  cancel_cycle_cas =
      λ c e db. write_if (int_eq db.latest.revisions.content e) (record db { latest = c }) db;
  redact_draft_usages_cas = λ user ids db. (ok (length ids), db);
  delete_expired_finalized_draft_usages_cas = λ user ids now db. (ok (length ids), db);
  delete_draft_generations_cas =
      λ user draft ids db. (ok (length db.generations), record db { generations = [] });
  delete_review_draft_cas =
      λ user id e db. write_if (is_set db.draft) (record db { draft = none }) db;
  terminate_goal_cas = λ g e db. write_if (int_eq db.goal.revision e) (record db { goal = g }) db;
  load_goal_view = λ user id db. (ok (goal_view db), db);
  load_cycle_view = λ user goal id db. (find_cycle_view db id, db);
  pool = pool;
}
