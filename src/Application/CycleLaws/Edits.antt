-- ===== src/Application/CycleLaws/Edits.antt =====
-- What a `SaveFrame` that reports success has done to the database.
use cycle.Base.{
  ◌⊎◌, subst, ℤ, ◌≡◌, ap, Bool, true, false, none, ok, map_err, arith, ◌∙◌, sym, not, eq_iff,
}
use cycle.Domain.Cycle
use cycle.Domain.Cycle.{PdcaCycle, Frame, Time, frame_revision}
use cycle.Domain.Goal.{Goal, is_active_cycle}
use cycle.Application.Errors.{of_cycle, cycle_invariant, goal_state_conflict}
use cycle.Application.Views.{SaveFrameInput, SaveFrameResult}
use cycle.Application.CycleTx.{CycleTx}
use cycle.Application.CycleCommands.{
  save_frame, save_frame_in, running_for, store_frame, is_other_cycle,
}
use cycle.Application.TxLaws.{
  run-bind, run-pure, run-lift_map, run-within, run-guard, run-then, run-write_unless,
}
use cycle.Application.Tx.{lift}

-- The run from `s` to `s'`: the named cycle, found under its lock in an active goal, was saved by
-- the domain's rule from what `found` holds, and the one row that this changes was written.
pub record FrameSaved {S : Type 0} (tx : CycleTx S) (input : SaveFrameInput) (now : Time) (s s' : S)
    (r : SaveFrameResult) : Type 0 where
  pub locked_goal : Goal
  pub current : PdcaCycle
  pub running : Bool
  pub saved : Cycle.SaveFrameResult
  pub after_goal : S
  pub after_cycle : S
  pub found : S
  pub goal_locked : tx.lock_goal input.user_id input.goal_id s ≡ (ok locked_goal, after_goal)
  pub cycle_locked :
      tx.lock_cycle input.user_id input.goal_id input.cycle_id after_goal
      ≡ (ok current, after_cycle)
  pub asked :
      running_for tx input.frame input.user_id input.goal_id input.cycle_id after_cycle
      ≡ (ok running, found)
  pub own :
      (current.user_id ≡ input.user_id)
      × (current.goal_id ≡ input.goal_id)
      × (current.id ≡ input.cycle_id)
  pub goal_active : is_active_cycle locked_goal.status ≡ true
  pub by_rule :
      Cycle.save_frame current input.frame input.content input.expected_frame_revision running now
      ≡ ok saved
  pub write :
      ((saved.no_op ≡ true) × (found ≡ s'))
      ⊎ ((saved.no_op ≡ false)
          × (tx.save_cycle_frame_cas saved.saved saved.frame input.expected_frame_revision found
              ≡ (ok 1, s')))
  pub committed : tx.pool.commit_error s' ≡ none
  pub revision : r.frame_revision ≡ frame_revision saved.saved saved.frame
  pub content : r.content ≡ saved.content

module _ {S : Type 0} (tx : CycleTx S) where
  run-store_frame :
      (saved : Cycle.SaveFrameResult) (e : ℤ) (s : S) {u : Unit {0}} {s' : S}
      → store_frame tx saved e s ≡ (ok u, s')
      → ((saved.no_op ≡ true) × (s ≡ s'))
        ⊎ ((saved.no_op ≡ false)
            × (tx.save_cycle_frame_cas saved.saved saved.frame e s ≡ (ok 1, s')))
  unfolding store_frame
  run-store_frame saved e s h =
      run-write_unless cycle_invariant saved.no_op
        (tx.save_cycle_frame_cas saved.saved saved.frame e) "save Cycle frame" s h

  -- A `SaveFrame` that reports success ran the domain's rule on the named cycle under its lock, in an
  -- active goal, wrote exactly one row unless nothing changed, and committed.
  pub save_frame-FrameSaved :
      (input : SaveFrameInput) (now : Time) (s : S) {r : SaveFrameResult} {s' : S}
      → save_frame tx input now s ≡ (ok r, s')
      → FrameSaved tx input now s s' r
  unfolding save_frame save_frame_in
  save_frame-FrameSaved input now s h =
      let (h, c) = run-within tx.pool (save_frame_in tx input now) s h in
      let (g, s1, p1, h) = run-bind (tx.lock_goal input.user_id input.goal_id) _ s h in
      let (current, s2, p2, h) =
        run-bind (tx.lock_cycle input.user_id input.goal_id input.cycle_id) _ s1 h in
      let (own, h) =
        run-guard (is_other_cycle current input.user_id input.goal_id input.cycle_id)
          (cycle_invariant "locked Cycle target does not match the command") _ s2 h in
      let (live, h) = run-guard (not (is_active_cycle g.status)) goal_state_conflict _ s2 h in
      let (running, s3, p3, h) =
        run-bind (running_for tx input.frame input.user_id input.goal_id input.cycle_id) _ s2 h in
      let (saved, s4, p4, h) =
        run-bind
          (lift (
            map_err of_cycle (
              Cycle.save_frame current input.frame input.content input.expected_frame_revision
                running now)))
          _ s3 h in
      let (rule, same) = run-lift_map of_cycle _ s3 p4 in
      let (u5, s5, p5, h) = run-then (store_frame tx saved input.expected_frame_revision) _ s4 h in
      let write = run-store_frame saved input.expected_frame_revision s4 p5 in
      let (made, last) = run-pure _ s5 h in
      record {
        locked_goal = g;
        current = current;
        running = running;
        saved = saved;
        after_goal = s1;
        after_cycle = s2;
        found = s4;
        goal_locked = p1;
        cycle_locked = p2;
        asked = p3 ∙ ap (λ (x : S). (ok running, x)) same;
        own = ground (
          arith,
          eq_iff current.user_id input.user_id,
          eq_iff current.goal_id input.goal_id,
          eq_iff current.id input.cycle_id,
        );
        goal_active = ground arith;
        by_rule = rule;
        write =
            subst
              (λ (x : S).
                ((saved.no_op ≡ true) × (s4 ≡ x))
                ⊎ ((saved.no_op ≡ false)
                    × (tx.save_cycle_frame_cas saved.saved saved.frame input.expected_frame_revision
                          s4
                        ≡ (ok 1, x))))
              last write;
        committed = c;
        revision = ap (λ (x : SaveFrameResult). x.frame_revision) (sym made);
        content = ap (λ (x : SaveFrameResult). x.content) (sym made);
      }
