-- ===== src/Application/CycleLaws/Schedule.antt =====
-- What a `ChangeReviewSchedule` that reports success has done to the database.
use cycle.Base.{◌⊎◌, ◌≡◌, true, false, none, ok, arith, ◌∙◌, not, eq_iff}
use cycle.Domain.Cycle
use cycle.Domain.Cycle.{PdcaCycle}
use cycle.Domain.Goal.{Goal, is_active_cycle}
use cycle.Application.Errors.{of_cycle, cycle_invariant, goal_state_conflict}
use cycle.Application.Views.{ChangeReviewScheduleInput, CycleView}
use cycle.Application.CycleTx.{CycleTx}
use cycle.Application.CycleChecks.{validate_cycle_view}
use cycle.Application.CycleCommands.{
  change_review_schedule, change_review_schedule_in, store_schedule, is_other_cycle,
}
use cycle.Application.TxLaws.{
  run-bind, run-pure, run-rule, run-result, run-within, run-guard, run-then, run-write_unless,
}

-- The run from `s` to `s'`: the named cycle, found under its lock in an active goal, was
-- rescheduled by the domain's rule, and the one row that this changes was written and read back.
pub record ScheduleChanged {S : Type 0} (tx : CycleTx S) (input : ChangeReviewScheduleInput) (s : S)
    (r : CycleView) (s' : S) : Type 0 where
  pub locked_goal : Goal
  pub current : PdcaCycle
  pub changed : Cycle.ChangeReviewScheduleResult
  pub after_goal : S
  pub after_cycle : S
  pub after_write : S
  pub goal_locked : tx.lock_goal input.user_id input.goal_id s ≡ (ok locked_goal, after_goal)
  pub cycle_locked :
      tx.lock_cycle input.user_id input.goal_id input.cycle_id after_goal
      ≡ (ok current, after_cycle)
  pub own :
      (current.user_id ≡ input.user_id)
      × (current.goal_id ≡ input.goal_id)
      × (current.id ≡ input.cycle_id)
  pub goal_active : is_active_cycle locked_goal.status ≡ true
  pub by_rule :
      Cycle.change_review_schedule current input.review_date input.expected_review_schedule_revision
      ≡ ok changed
  pub write :
      ((changed.no_op ≡ true) × (after_cycle ≡ after_write))
      ⊎ ((changed.no_op ≡ false)
          × (tx.save_cycle_review_schedule_cas changed.changed
                input.expected_review_schedule_revision after_cycle
              ≡ (ok 1, after_write)))
  pub read_back :
      tx.load_cycle_view input.user_id input.goal_id input.cycle_id after_write ≡ (ok r, s')
  pub committed : tx.pool.commit_error s' ≡ none

module _ {S : Type 0} (tx : CycleTx S) where
  -- A `ChangeReviewSchedule` that reports success ran the domain's rule on the named cycle under its
  -- lock, in an active goal, wrote exactly one row unless nothing changed, reports what it read
  -- back, and committed.
  pub change_review_schedule-ScheduleChanged :
      (input : ChangeReviewScheduleInput) (s : S) {r : CycleView} {s' : S}
      → change_review_schedule tx input s ≡ (ok r, s')
      → ScheduleChanged tx input s r s'
  unfolding change_review_schedule change_review_schedule_in store_schedule
  change_review_schedule-ScheduleChanged input s h =
      let (h, c) = run-within tx.pool (change_review_schedule_in tx input) s h in
      let (g, s1, p1, h) = run-bind (tx.lock_goal input.user_id input.goal_id) _ s h in
      let (current, s2, p2, h) =
        run-bind (tx.lock_cycle input.user_id input.goal_id input.cycle_id) _ s1 h in
      let (own, h) =
        run-guard (is_other_cycle current input.user_id input.goal_id input.cycle_id)
          (cycle_invariant "locked Cycle target does not match the review schedule command") _ s2
          h in
      let (live, h) = run-guard (not (is_active_cycle g.status)) goal_state_conflict _ s2 h in
      let (changed, rule, h) =
        run-rule of_cycle
          (Cycle.change_review_schedule current input.review_date
            input.expected_review_schedule_revision)
          _ s2 h in
      let (u, s3, p3, h) =
        run-then (store_schedule tx changed input.expected_review_schedule_revision) _ s2 h in
      let (view, s4, p4, h) =
        run-bind (tx.load_cycle_view input.user_id input.goal_id input.cycle_id) _ s3 h in
      let (u2, valid, h) =
        run-result (validate_cycle_view view input.goal_id input.cycle_id) _ s4 h in
      let (e, same) = run-pure view s4 h in
      record {
        locked_goal = g;
        current = current;
        changed = changed;
        after_goal = s1;
        after_cycle = s2;
        after_write = s3;
        goal_locked = p1;
        cycle_locked = p2;
        own = ground (
          arith,
          eq_iff current.user_id input.user_id,
          eq_iff current.goal_id input.goal_id,
          eq_iff current.id input.cycle_id,
        );
        goal_active = ground arith;
        by_rule = rule;
        write =
            run-write_unless cycle_invariant changed.no_op
              (tx.save_cycle_review_schedule_cas changed.changed
                input.expected_review_schedule_revision)
              "change Cycle review schedule" s2 p3;
        read_back = p4 ∙ (λ i. (ok (e i), same i));
        committed = c;
      }
