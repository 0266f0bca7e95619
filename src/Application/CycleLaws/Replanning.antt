-- ===== src/Application/CycleLaws/Replanning.antt =====
-- What a `ReplanCycle` that reports success has done to the database.
use cycle.Base.{
  ℕ, ◌≡◌, inl, inr, ap, Bool, true, false, Option, none, some, String, Result, ok, arith, ◌∙◌, not,
  ◌==◌, int_eq, int_eq_iff,
}
use cycle.Identifier.{is_canonical_uuid_v7}
use cycle.Domain.Cycle
use cycle.Domain.Cycle.{PdcaCycle, Time}
use cycle.Domain.Goal
use cycle.Domain.Goal.{Goal, Version, ReplanResult, is_active_cycle, replan_refused}
use cycle.Application.Errors.{
  AppError, of_cycle, cycle_invariant, goal_state_conflict, goal_revision_conflict,
  goal_version_conflict, ai_in_progress,
}
use cycle.Application.Views.{ReplanCycleInput, ReplanCycleResult}
use cycle.Application.CycleTx.{CycleTx, ReplanCycleReceipt}
use cycle.Application.CycleResults.{validate_replan_cycle_receipt}
use cycle.Application.CycleCommands.{
  perform_replan, replan_current, read_replanned, after_claim, classify_receipt,
  classify_lost_replan_cycle_claim, load_current_version, stale_version, is_other_cycle,
  replan_error, out_of_sequence, changed_since,
}
use cycle.Application.TxLaws.{
  run-if, run-write, run-bind, run-result, run-rule, run-guard, run-rows, absurd_of,
}
use cycle.Application.Tx.{truncate_microsecond}

-- Three writes in this order, each of exactly one row: the canceled cycle, its successor, the goal.
pub record ReplanWritten {S : Type 0} (tx : CycleTx S) (input : ReplanCycleInput)
    (replanned : ReplanResult) (s : S) (r : ReplanCycleResult) (s' : S) : Type 0 where
  pub after_cancel : S
  pub after_claim_ : S
  pub after_goal : S
  pub canceled :
      tx.cancel_cycle_cas replanned.canceled input.expected_content_revision s
      ≡ (ok 1, after_cancel)
  pub claimed : tx.try_insert_cycle_claim replanned.next after_cancel ≡ (ok 1, after_claim_)
  pub goal_written :
      tx.replan_goal_cas replanned.goal input.expected_goal_revision after_claim_
      ≡ (ok 1, after_goal)
  pub read_back : read_replanned tx input replanned after_goal ≡ (ok r, s')

-- What the command has worked on behind its receipt, with the goal locked.
pub record Replanned {S : Type 0} (tx : CycleTx S) (input : ReplanCycleInput) (hash : String)
    (now : Time) (locked : Goal) (s : S) (r : ReplanCycleResult) (s' : S) : Type 0 where
  pub current : PdcaCycle
  pub version : Version
  pub id : String
  pub replanned : ReplanResult
  pub after_cycle : S
  pub after_version : S
  pub found : S
  pub cycle_locked :
      tx.lock_cycle input.user_id input.goal_id input.cycle_id s ≡ (ok current, after_cycle)
  pub own_cycle : is_other_cycle current input.user_id input.goal_id input.cycle_id ≡ false
  pub goal_active : is_active_cycle locked.status ≡ true
  pub goal_revision : locked.revision ≡ input.expected_goal_revision
  pub unchanged : changed_since current input ≡ false
  pub loaded :
      load_current_version tx locked input.user_id input.goal_id after_cycle
      ≡ (ok version, after_version)
  pub idle :
      tx.has_running_cycle_generation input.user_id input.goal_id input.cycle_id after_version
      ≡ (ok false, found)
  pub canonical : is_canonical_uuid_v7 id ≡ true
  pub by_rule :
      Goal.replan locked version current id input.operation_id hash (truncate_microsecond now)
      ≡ ok replanned
  pub written : ReplanWritten tx input replanned found r s'

module _ {S : Type 0} (tx : CycleTx S) where
  classify-not_ok :
      {A : Type 0} (receipt : Option ReplanCycleReceipt) (s : S) {r : ReplanCycleResult} {s' : S}
      → classify_receipt tx receipt s ≡ (ok r, s')
      → A
  unfolding classify_receipt
  classify-not_ok none s h = absurd_of (ap (λ (x : Result AppError ReplanCycleResult × S). x.0) h)
  classify-not_ok (some receipt) s h =
      absurd_of (ap (λ (x : Result AppError ReplanCycleResult × S). x.0) h)

  lost-not_ok :
      {A : Type 0} (input : ReplanCycleInput) (hash : String) (s : S) {r : ReplanCycleResult}
      {s' : S}
      → classify_lost_replan_cycle_claim tx input hash s ≡ (ok r, s')
      → A
  unfolding classify_lost_replan_cycle_claim
  lost-not_ok input hash s h =
      let (receipt, s1, p1, h) =
        run-bind (tx.find_replan_cycle_receipt input.user_id input.operation_id) _ s h in
      let (u, valid, h) = run-result (validate_replan_cycle_receipt receipt input hash) _ s1 h in
      classify-not_ok receipt s1 h

  run-after_claim :
      (input : ReplanCycleInput) (hash : String) (replanned : ReplanResult) (rows : ℕ) (s : S)
      {r : ReplanCycleResult} {s' : S}
      → after_claim tx input hash replanned rows s ≡ (ok r, s')
      → (rows ≡ 1)
        × ((t : S) × (tx.replan_goal_cas replanned.goal input.expected_goal_revision s ≡ (ok 1, t))
            × (read_replanned tx input replanned t ≡ (ok r, s')))
  unfolding after_claim
  run-after_claim input hash replanned rows s h = elim (run-if (rows == 0) _ _ s h) [
    | inl (p, h) ↦ lost-not_ok input hash s h
    | inr (p, h) ↦
        let (one, h) = run-rows cycle_invariant "insert replanned successor Cycle" rows 1 _ s h in
        let (t, q, h) =
          run-write cycle_invariant "advance replanned Goal"
            (tx.replan_goal_cas replanned.goal input.expected_goal_revision) 1 _ s h in
        (one, (t, q, h))
  ]

  run-replan_current :
      (input : ReplanCycleInput) (hash : String) (new_id : Result AppError String) (now : Time)
      (locked : Goal) (current : PdcaCycle) (version : Version) (s : S) {r : ReplanCycleResult}
      {s' : S}
      → replan_current tx input hash new_id now locked current version s ≡ (ok r, s')
      → (id : String) × (replanned : ReplanResult) × (is_canonical_uuid_v7 id ≡ true)
        × (Goal.replan locked version current id input.operation_id hash (truncate_microsecond now)
            ≡ ok replanned)
        × ReplanWritten tx input replanned s r s'
  unfolding replan_current
  run-replan_current input hash new_id now locked current version s h =
      let (id, got, h) = run-result new_id _ s h in
      let (canonical, h) =
        run-guard (not (is_canonical_uuid_v7 id))
          (cycle_invariant "ID generator returned a non-canonical Replan Cycle UUIDv7") _ s h in
      let (replanned, rule, h) =
        run-rule replan_error
          (Goal.replan locked version current id input.operation_id hash (truncate_microsecond now))
          _ s h in
      let (rows, s1, p1, h) =
        run-bind (tx.cancel_cycle_cas replanned.canceled input.expected_content_revision) _ s h in
      let (one, h) = run-rows cycle_invariant "cancel replanned Cycle" rows 1 _ s1 h in
      let (rows2, s2, p2, h) = run-bind (tx.try_insert_cycle_claim replanned.next) _ s1 h in
      let (one2, (s3, p3, back)) = run-after_claim input hash replanned rows2 s2 h in
      (
        id,
        replanned,
        ground arith,
        rule,
        record {
          after_cancel = s1;
          after_claim_ = s2;
          after_goal = s3;
          canceled = p1 ∙ ap (λ (n : ℕ). (ok n, s1)) one;
          claimed = p2 ∙ ap (λ (n : ℕ). (ok n, s2)) one2;
          goal_written = p3;
          read_back = back;
        },
      )

  pub run-perform_replan :
      (input : ReplanCycleInput) (hash : String) (new_id : Result AppError String) (now : Time)
      (locked : Goal) (s : S) {r : ReplanCycleResult} {s' : S}
      → perform_replan tx input hash new_id now locked s ≡ (ok r, s')
      → Replanned tx input hash now locked s r s'
  unfolding perform_replan
  run-perform_replan input hash new_id now locked s h =
      let (current, s1, p1, h) =
        run-bind (tx.lock_cycle input.user_id input.goal_id input.cycle_id) _ s h in
      let (own, h) =
        run-guard (is_other_cycle current input.user_id input.goal_id input.cycle_id)
          (cycle_invariant "locked Cycle target does not match Replan Cycle") _ s1 h in
      let (live, h) = run-guard (not (is_active_cycle locked.status)) goal_state_conflict _ s1 h in
      let (rev, h) =
        run-guard (not (int_eq locked.revision input.expected_goal_revision)) goal_revision_conflict
          _ s1 h in
      let (active, h) =
        run-guard (not (Cycle.is_active current.status)) (of_cycle Cycle.cycle_not_active) _ s1 h in
      let (sequence, h) =
        run-guard (out_of_sequence locked current)
          (cycle_invariant "active Cycle sequence does not match its Goal during Replan") _ s1 h in
      let (same, h) =
        run-guard (changed_since current input) (of_cycle Cycle.revision_conflict) _ s1 h in
      let (version, s2, p2, h) =
        run-bind (load_current_version tx locked input.user_id input.goal_id) _ s1 h in
      let (fresh, h) =
        run-guard (stale_version version locked current input.user_id input.goal_id)
          goal_version_conflict _ s2 h in
      let (running, s3, p3, h) =
        run-bind (tx.has_running_cycle_generation input.user_id input.goal_id input.cycle_id) _ s2
          h in
      let (idle, h) = run-guard running ai_in_progress _ s3 h in
      let (id, replanned, canonical, rule, written) =
        run-replan_current input hash new_id now locked current version s3 h in
      record {
        current = current;
        version = version;
        id = id;
        replanned = replanned;
        after_cycle = s1;
        after_version = s2;
        found = s3;
        cycle_locked = p1;
        own_cycle = own;
        goal_active = ground arith;
        goal_revision = ground (arith, int_eq_iff locked.revision input.expected_goal_revision);
        unchanged = same;
        loaded = p2;
        idle = p3 ∙ ap (λ (b : Bool). (ok b, s3)) idle;
        canonical = canonical;
        by_rule = rule;
        written = written;
      }
