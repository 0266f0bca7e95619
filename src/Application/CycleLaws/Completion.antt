-- ===== src/Application/CycleLaws/Completion.antt =====
-- What a `CompleteCycle` that reports success has done to the database.
use cycle.Base.{◌≡◌, Bool, true, false, String, Result, ok, arith, not, int_eq, int_eq_iff}
use cycle.Identifier.{is_canonical_uuid_v7}
use cycle.Domain.Cycle
use cycle.Domain.Cycle.{PdcaCycle, Time}
use cycle.Domain.Goal
use cycle.Domain.Goal.{Goal, Version, Draft, is_active_cycle}
use cycle.Application.Errors.{
  AppError, of_goal, cycle_invariant, goal_state_conflict, goal_revision_conflict,
  goal_version_conflict,
}
use cycle.Application.Views.{CompleteCycleInput, CompleteCycleResult}
use cycle.Application.CycleTx.{CycleTx}
use cycle.Application.CycleCommands.{
  perform_completion, complete_current, write_completion, read_completed, load_current_version,
  stale_version, is_other_cycle, completion_error,
}
use cycle.Application.TxLaws.{run-bind, run-guard, run-write, run-rule, run-result}

-- Three writes in this order, each of exactly one row.
pub record Written {S : Type 0} (tx : CycleTx S) (input : CompleteCycleInput)
    (completed : PdcaCycle) (reviewing : Goal) (draft : Draft) (s : S) (r : CompleteCycleResult)
    (s' : S) : Type 0 where
  pub after_cycle : S
  pub after_draft : S
  pub after_goal : S
  pub cycle_written :
      tx.complete_cycle_cas completed input.expected_content_revision s ≡ (ok 1, after_cycle)
  pub draft_written : tx.insert_review_draft draft after_cycle ≡ (ok 1, after_draft)
  pub goal_written :
      tx.enter_goal_review_cas reviewing input.expected_goal_revision after_draft
      ≡ (ok 1, after_goal)
  pub read_back : read_completed tx input draft after_goal ≡ (ok r, s')

module _ {S : Type 0} (tx : CycleTx S) where
  pub run-write_completion :
      (input : CompleteCycleInput) (completed : PdcaCycle) (reviewing : Goal) (draft : Draft)
      (s : S) {r : CompleteCycleResult} {s' : S}
      → write_completion tx input completed reviewing draft s ≡ (ok r, s')
      → Written tx input completed reviewing draft s r s'
  unfolding write_completion
  run-write_completion input completed reviewing draft s h =
      let (s1, p1, h) =
        run-write cycle_invariant "complete Cycle"
          (tx.complete_cycle_cas completed input.expected_content_revision) 1 _ s h in
      let (s2, p2, h) =
        run-write cycle_invariant "insert Cycle Review Draft" (tx.insert_review_draft draft) 1 _ s1
          h in
      let (s3, p3, h) =
        run-write cycle_invariant "enter Goal review"
          (tx.enter_goal_review_cas reviewing input.expected_goal_revision) 1 _ s2 h in
      record {
        after_cycle = s1;
        after_draft = s2;
        after_goal = s3;
        cycle_written = p1;
        draft_written = p2;
        goal_written = p3;
        read_back = h;
      }

-- What the domain makes of the locked goal, the locked cycle and the goal's version, written from
-- the state `s` on.
pub record Ruled {S : Type 0} (tx : CycleTx S) (input : CompleteCycleInput) (hash : String)
    (now : Time) (locked : Goal) (current : PdcaCycle) (version : Version) (s : S)
    (r : CompleteCycleResult) (s' : S) : Type 0 where
  pub running : Bool
  pub completed : PdcaCycle
  pub id : String
  pub reviewing : Goal
  pub draft : Draft
  pub by_rule :
      Cycle.complete current input.operation_id hash input.expected_content_revision running now
      ≡ ok completed
  pub canonical : is_canonical_uuid_v7 id ≡ true
  pub entered : Goal.enter_review locked now ≡ ok reviewing
  pub drafted : Goal.new_review_draft id reviewing version completed now ≡ ok draft
  pub written : Written tx input completed reviewing draft s r s'

-- What the command has worked on behind its receipt, with the goal locked: the named cycle, and the
-- version that goal and cycle work under.
pub record Performed {S : Type 0} (tx : CycleTx S) (input : CompleteCycleInput) (hash : String)
    (now : Time) (locked : Goal) (s : S) (r : CompleteCycleResult) (s' : S) : Type 0 where
  pub current : PdcaCycle
  pub version : Version
  pub after_cycle : S
  pub after_version : S
  pub found : S
  pub running : Bool
  pub cycle_locked :
      tx.lock_cycle input.user_id input.goal_id input.cycle_id s ≡ (ok current, after_cycle)
  pub own : is_other_cycle current input.user_id input.goal_id input.cycle_id ≡ false
  pub goal_active : is_active_cycle locked.status ≡ true
  pub goal_revision : locked.revision ≡ input.expected_goal_revision
  pub loaded :
      load_current_version tx locked input.user_id input.goal_id after_cycle
      ≡ (ok version, after_version)
  pub asked :
      tx.has_running_cycle_generation input.user_id input.goal_id input.cycle_id after_version
      ≡ (ok running, found)
  pub fresh_version : stale_version version locked current input.user_id input.goal_id ≡ false
  pub ruled : Ruled tx input hash now locked current version found r s'

module _ {S : Type 0} (tx : CycleTx S) where
  run-complete_current :
      (input : CompleteCycleInput) (hash : String) (new_id : Result AppError String) (now : Time)
      (locked : Goal) (current : PdcaCycle) (version : Version) (running : Bool) (s : S)
      {r : CompleteCycleResult} {s' : S}
      → complete_current tx input hash new_id now locked current version running s ≡ (ok r, s')
      → Ruled tx input hash now locked current version s r s'
  unfolding complete_current
  run-complete_current input hash new_id now locked current version running s h =
      let (completed, rule, h) =
        run-rule (completion_error current)
          (Cycle.complete current input.operation_id hash input.expected_content_revision running
            now)
          _ s h in
      let (id, got, h) = run-result new_id _ s h in
      let (canonical, h) =
        run-guard (not (is_canonical_uuid_v7 id))
          (cycle_invariant "ID generator returned a non-canonical UUIDv7") _ s h in
      let (reviewing, entered, h) = run-rule of_goal (Goal.enter_review locked now) _ s h in
      let (draft, drafted, h) =
        run-rule of_goal (Goal.new_review_draft id reviewing version completed now) _ s h in
      record {
        running = running;
        completed = completed;
        id = id;
        reviewing = reviewing;
        draft = draft;
        by_rule = rule;
        canonical = ground arith;
        entered = entered;
        drafted = drafted;
        written = run-write_completion tx input completed reviewing draft s h;
      }

  pub run-perform_completion :
      (input : CompleteCycleInput) (hash : String) (new_id : Result AppError String) (now : Time)
      (locked : Goal) (s : S) {r : CompleteCycleResult} {s' : S}
      → perform_completion tx input hash new_id now locked s ≡ (ok r, s')
      → Performed tx input hash now locked s r s'
  unfolding perform_completion
  run-perform_completion input hash new_id now locked s h =
      let (current, s1, p1, h) =
        run-bind (tx.lock_cycle input.user_id input.goal_id input.cycle_id) _ s h in
      let (own, h) =
        run-guard (is_other_cycle current input.user_id input.goal_id input.cycle_id)
          (cycle_invariant "locked Cycle target does not match the command") _ s1 h in
      let (live, h) = run-guard (not (is_active_cycle locked.status)) goal_state_conflict _ s1 h in
      let (rev, h) =
        run-guard (not (int_eq locked.revision input.expected_goal_revision)) goal_revision_conflict
          _ s1 h in
      let (version, s2, p2, h) =
        run-bind (load_current_version tx locked input.user_id input.goal_id) _ s1 h in
      let (fresh, h) =
        run-guard (stale_version version locked current input.user_id input.goal_id)
          goal_version_conflict _ s2 h in
      let (running, s3, p3, h) =
        run-bind (tx.has_running_cycle_generation input.user_id input.goal_id input.cycle_id) _ s2
          h in
      record {
        current = current;
        version = version;
        after_cycle = s1;
        after_version = s2;
        found = s3;
        running = running;
        asked = p3;
        cycle_locked = p1;
        own = own;
        goal_active = ground arith;
        goal_revision = ground (arith, int_eq_iff locked.revision input.expected_goal_revision);
        loaded = p2;
        fresh_version = fresh;
        ruled = run-complete_current input hash new_id now locked current version running s3 h;
      }
