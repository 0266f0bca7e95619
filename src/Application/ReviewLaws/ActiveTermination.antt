-- ===== src/Application/ReviewLaws/ActiveTermination.antt =====
-- What the termination of a goal with an active cycle has done to the database.
use cycle.Base.{
  ◌≡◌, ap, sym, Bool, false, none, some, String, ok, arith, ◌∙◌, not, int_eq, int_eq_iff,
}
use cycle.Domain.Cycle
use cycle.Domain.Cycle.{PdcaCycle, Time}
use cycle.Domain.Goal
use cycle.Domain.Goal.{Goal}
use cycle.Application.Errors.{
  review_invariant, goal_state_conflict, ai_in_progress, of_cycle, of_goal,
}
use cycle.Application.Views.{CycleView}
use cycle.Application.CycleCommands.{is_other_cycle}
use cycle.Application.Tx.{or_error, truncate_microsecond}
use cycle.Application.ReviewTx.{ReviewTx, TerminateInput, TerminateResult}
use cycle.Application.ReviewChecks.{
  materialization_error, cancellation_reason_of, validate_fresh_termination_result,
}
use cycle.Application.ReviewCommands.{
  expected_revision_of, cycle_error, terminate_active_cycle, terminate_current,
  write_active_termination, read_active,
}
use cycle.Application.TxLaws.{
  run-bind, run-guard, run-rule, run-result, run-or_error, run-pure, run-write,
}

-- The cycle and the goal are each written as one row, in this order, and read back.
pub record ActiveWritten {S : Type 0} (tx : ReviewTx S) (input : TerminateInput)
    (canceled : PdcaCycle) (terminated : Goal) (s : S) (r : TerminateResult) (s' : S) : Type 0 where
  pub after_cycle : S
  pub after_goal : S
  pub after_view : S
  pub view : CycleView
  pub cycle_written :
      tx.cancel_cycle_cas canceled (expected_revision_of input.expected_cycle_content_revision) s
      ≡ (ok 1, after_cycle)
  pub goal_written :
      tx.terminate_goal_cas terminated input.expected_goal_revision after_cycle ≡ (ok 1, after_goal)
  pub goal_read : tx.load_goal_view input.user_id input.goal_id after_goal ≡ (ok r.goal, after_view)
  pub cycle_read :
      tx.load_cycle_view input.user_id input.goal_id input.active_cycle_id after_view
      ≡ (ok view, s')
  pub reported : (r.canceled_cycle ≡ some view) × (r.replayed ≡ false)

-- The named cycle is active and the goal's, both at the expected revisions, with no generation of
-- the goal running; it is canceled, and the goal terminated, by the domain's rules.
pub record ActiveTerminated {S : Type 0} (tx : ReviewTx S) (input : TerminateInput) (hash : String)
    (now : Time) (locked : Goal) (s : S) (r : TerminateResult) (s' : S) : Type 0 where
  pub current : PdcaCycle
  pub canceled : PdcaCycle
  pub terminated : Goal
  pub after_cycle : S
  pub start : S
  pub cycle_locked :
      tx.lock_cycle input.user_id input.goal_id input.active_cycle_id s ≡ (ok current, after_cycle)
  pub own : is_other_cycle current input.user_id input.goal_id input.active_cycle_id ≡ false
  pub goal_revision : locked.revision ≡ input.expected_goal_revision
  pub content_revision :
      current.revisions.content ≡ expected_revision_of input.expected_cycle_content_revision
  pub none_runs :
      tx.has_running_goal_generation input.user_id input.goal_id after_cycle ≡ (ok false, start)
  pub by_cycle_rule :
      Cycle.cancel current (cancellation_reason_of input.outcome) (truncate_microsecond now)
      ≡ ok canceled
  pub by_goal_rule :
      Goal.terminate locked input.outcome input.operation_id hash (truncate_microsecond now)
      ≡ ok terminated
  pub written : ActiveWritten tx input canceled terminated start r s'

module _ {S : Type 0} (tx : ReviewTx S) (input : TerminateInput) where
  run-read_active :
      (canceled : PdcaCycle) (terminated : Goal) (s : S) {r : TerminateResult} {s' : S}
      → read_active tx input canceled terminated s ≡ (ok r, s')
      → (t : S) × (view : CycleView) × (tx.load_goal_view input.user_id input.goal_id s
          ≡ (ok r.goal, t))
        × (tx.load_cycle_view input.user_id input.goal_id input.active_cycle_id t ≡ (ok view, s'))
        × (r.canceled_cycle ≡ some view)
        × (r.replayed ≡ false)
  unfolding read_active
  run-read_active canceled terminated s h =
      let (goal, t, p, h) =
        run-bind
          (or_error (tx.load_goal_view input.user_id input.goal_id)
            (materialization_error "terminal Goal disappeared after its parent lock"))
          _ s h in
      let (view, u, q, h) =
        run-bind
          (or_error (tx.load_cycle_view input.user_id input.goal_id input.active_cycle_id)
            (materialization_error "canceled Cycle disappeared after its parent lock"))
          _ t h in
      let result : TerminateResult = record {
        goal = goal;
        canceled_cycle = some view;
        replayed = false;
      } in
      let (v, valid, h) =
        run-result (validate_fresh_termination_result result input terminated (some canceled) none)
          _ u h in
      let (e, same) = run-pure result u h in
      (
        t,
        view,
        run-or_error (tx.load_goal_view input.user_id input.goal_id) _ s p
            ∙ ap (λ (x : TerminateResult). (ok x.goal, t)) e,
        run-or_error (tx.load_cycle_view input.user_id input.goal_id input.active_cycle_id) _ t q
            ∙ (λ i. (ok view, same i)),
        sym (ap (λ (x : TerminateResult). x.canceled_cycle) e),
        sym (ap (λ (x : TerminateResult). x.replayed) e),
      )

  run-write_active :
      (canceled : PdcaCycle) (terminated : Goal) (s : S) {r : TerminateResult} {s' : S}
      → write_active_termination tx input canceled terminated s ≡ (ok r, s')
      → ActiveWritten tx input canceled terminated s r s'
  unfolding write_active_termination
  run-write_active canceled terminated s h =
      let (s1, p1, h) =
        run-write review_invariant "cancel active Cycle"
          (tx.cancel_cycle_cas canceled
            (expected_revision_of input.expected_cycle_content_revision))
          1 _ s h in
      let (s2, p2, h) =
        run-write review_invariant "terminate active Goal"
          (tx.terminate_goal_cas terminated input.expected_goal_revision) 1 _ s1 h in
      let (s3, view, p3, p4, reported, fresh) = run-read_active canceled terminated s2 h in
      record {
        after_cycle = s1;
        after_goal = s2;
        after_view = s3;
        view = view;
        cycle_written = p1;
        goal_written = p2;
        goal_read = p3;
        cycle_read = p4;
        reported = (reported, fresh);
      }

  pub run-terminate_active_cycle :
      (hash : String) (now : Time) (locked : Goal) (s : S) {r : TerminateResult} {s' : S}
      → terminate_active_cycle tx input hash now locked s ≡ (ok r, s')
      → ActiveTerminated tx input hash now locked s r s'
  unfolding terminate_active_cycle terminate_current
  run-terminate_active_cycle hash now locked s h =
      let (current, s1, p1, h) =
        run-bind
          (or_error (tx.lock_cycle input.user_id input.goal_id input.active_cycle_id) cycle_error) _
          s h in
      let (own, h) =
        run-guard (is_other_cycle current input.user_id input.goal_id input.active_cycle_id)
          (review_invariant "locked active Cycle does not match termination") _ s1 h in
      let (active, h) =
        run-guard (not (Cycle.is_active current.status)) goal_state_conflict _ s1 h in
      let (rev, h) =
        run-guard (not (int_eq locked.revision input.expected_goal_revision)) goal_state_conflict _
          s1 h in
      let expected = expected_revision_of input.expected_cycle_content_revision in
      let (content, h) =
        run-guard (not (int_eq current.revisions.content expected))
          (of_cycle Cycle.revision_conflict) _ s1 h in
      let (running, s2, p2, h) =
        run-bind (tx.has_running_goal_generation input.user_id input.goal_id) _ s1 h in
      let (idle, h) = run-guard running ai_in_progress _ s2 h in
      let (canceled, rule, h) =
        run-rule of_cycle
          (Cycle.cancel current (cancellation_reason_of input.outcome) (truncate_microsecond now)) _
          s2 h in
      let (terminated, rule2, h) =
        run-rule of_goal
          (Goal.terminate locked input.outcome input.operation_id hash (truncate_microsecond now)) _
          s2 h in
      record {
        current = current;
        canceled = canceled;
        terminated = terminated;
        after_cycle = s1;
        start = s2;
        cycle_locked =
            run-or_error (tx.lock_cycle input.user_id input.goal_id input.active_cycle_id)
              cycle_error s p1;
        own = own;
        goal_revision = ground (arith, int_eq_iff locked.revision input.expected_goal_revision);
        content_revision = ground (arith, int_eq_iff current.revisions.content expected);
        none_runs = p2 ∙ ap (λ (b : Bool). (ok b, s2)) idle;
        by_cycle_rule = rule;
        by_goal_rule = rule2;
        written = run-write_active canceled terminated s2 h;
      }
