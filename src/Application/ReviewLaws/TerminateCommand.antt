-- ===== src/Application/ReviewLaws/TerminateCommand.antt =====
-- `Terminate` as a whole: its receipt and the goal's state decide what is done.
use cycle.Base.{
  ◌≡◌, refl, sym, ◌⊎◌, inl, inr, ap, Option, none, some, String, Result, ok, err, arith, eq_iff,
  false, not,
}
use cycle.Domain.Cycle.{Time}
use cycle.Domain.Goal
use cycle.Domain.Goal.{Goal, is_terminal}
use cycle.Application.Errors.{
  AppError, review_invariant, goal_already_terminal, goal_state_conflict,
}
use cycle.Application.Tx.{Tx, within}
use cycle.Application.ReviewTx.{ReviewTx, TerminateInput, TerminateResult, GoalTerminationReceipt}
use cycle.Application.ReviewChecks.{
  validate_goal_termination_receipt, validate_termination_input, same_goal_status,
}
use cycle.Application.ReviewCommands.{
  HashedTermination, terminate, terminate_in, terminate_valid, terminate_request,
  terminate_dispatch, terminate_state, build_goal_termination_replay, is_other_goal,
}
use cycle.Application.TxLaws.{run-bind, run-then, run-result, run-within, run-guard, absurd_of}
use cycle.Application.ReviewLaws.ActiveTermination.{ActiveTerminated, run-terminate_active_cycle}
use cycle.Application.ReviewLaws.ReviewedTermination.{ReviewedTerminated, run-terminate_goal_review}

-- The receipt is that of this request, and the result is read back.
unfoldable pub Replays :
    {S : Type 0}
    → ReviewTx S
    → TerminateInput
    → String
    → GoalTerminationReceipt
    → S
    → TerminateResult
    → S
    → Type 0
Replays tx input hash receipt s r s' =
    (receipt.goal_id ≡ input.goal_id)
    × (receipt.request_hash ≡ hash)
    × (build_goal_termination_replay tx input receipt s ≡ (ok r, s'))

-- Without a receipt the goal was terminated in the state that it was in, with one it was replayed.
unfoldable pub TerminationOutcome :
    {S : Type 0}
    → ReviewTx S
    → String
    → TerminateInput
    → Time
    → Option GoalTerminationReceipt
    → Goal
    → S
    → TerminateResult
    → S
    → Type 0
TerminationOutcome tx hash input now (some receipt) locked s r s' =
    Replays tx input hash receipt s r s'
TerminationOutcome tx hash input now none locked s r s' =
    ((locked.status ≡ Goal.Status.active_cycle)
      × (input.expected_state ≡ Goal.Status.active_cycle)
      × ActiveTerminated tx input hash now locked s r s')
    ⊎ ((locked.status ≡ Goal.Status.goal_review)
        × (input.expected_state ≡ Goal.Status.goal_review)
        × ReviewedTerminated tx input hash now locked s r s')

-- The command read its receipt, under the user's lock, before it locked the goal.
pub record RanTerminate {S : Type 0} (tx : ReviewTx S) (hash : HashedTermination → String)
    (input : TerminateInput) (now : Time) (s : S) (r : TerminateResult) (s' : S) : Type 0 where
  pub receipt : Option GoalTerminationReceipt
  pub locked : Goal
  pub before : S
  pub found : S
  pub start : S
  pub input_valid : validate_termination_input input ≡ ok tt
  pub user_locked : tx.lock_user input.user_id s ≡ (ok tt, before)
  pub receipt_found :
      tx.find_goal_termination_receipt input.user_id input.operation_id before ≡ (ok receipt, found)
  pub goal_locked : tx.lock_goal input.user_id input.goal_id found ≡ (ok locked, start)
  pub own : (locked.user_id ≡ input.user_id) × (locked.id ≡ input.goal_id)
  pub outcome :
      TerminationOutcome tx (hash (terminate_request input)) input now receipt locked start r s'
  pub committed : tx.pool.commit_error s' ≡ none

receipt-matches :
    (q : GoalTerminationReceipt) (input : TerminateInput) (h : String)
    → validate_goal_termination_receipt (some q) input h ≡ ok tt
    → (q.goal_id ≡ input.goal_id) × (q.request_hash ≡ h)
unfolding validate_goal_termination_receipt
receipt-matches q input h p =
    ground (arith, eq_iff q.goal_id input.goal_id, eq_iff q.request_hash h)

-- A status that is the same as another one is equal to it.
same-eq : (s t : Goal.Status) → not (same_goal_status s t) ≡ false → s ≡ t
same-eq s t h = ground arith

module _ {S : Type 0} (tx : ReviewTx S) (hash : String) (input : TerminateInput) (now : Time) where
  refused :
      {X : Type 0} {e : AppError} {s : S} {r : TerminateResult} {s' : S}
      → ◌≡◌ {A = Result AppError TerminateResult × S} (err e, s) (ok r, s')
      → X
  refused h = absurd_of (ap (λ (x : Result AppError TerminateResult × S). x.0) h)

  run-terminate_state :
      (status : Goal.Status) (locked : Goal) (s : S) {r : TerminateResult} {s' : S}
      → locked.status ≡ status
      → status ≡ input.expected_state
      → terminate_state tx status input hash now locked s ≡ (ok r, s')
      → TerminationOutcome tx hash input now none locked s r s'
  unfolding terminate_state TerminationOutcome
  run-terminate_state Goal.Status.active_cycle locked s p q h =
      inl (p, sym q, run-terminate_active_cycle tx input hash now locked s h)
  run-terminate_state Goal.Status.goal_review locked s p q h =
      inr (p, sym q, run-terminate_goal_review tx input hash now locked s h)
  run-terminate_state Goal.Status.achieved locked s p q h = refused h
  run-terminate_state Goal.Status.ended locked s p q h = refused h
  run-terminate_state Goal.Status.unknown locked s p q h = refused h

  ran_with :
      (receipt : Option GoalTerminationReceipt) (locked : Goal) (s : S) {r : TerminateResult}
      {s' : S}
      → validate_goal_termination_receipt receipt input hash ≡ ok tt
      → terminate_dispatch tx receipt input hash now locked s ≡ (ok r, s')
      → TerminationOutcome tx hash input now receipt locked s r s'
  unfolding terminate_dispatch Replays TerminationOutcome
  ran_with (some q) locked s v h = let (a, b) = receipt-matches q input hash v in (a, b, h)
  ran_with none locked s v h =
      let (living, h) = run-guard (is_terminal locked.status) goal_already_terminal _ s h in
      let (same, h) =
        run-guard (not (same_goal_status locked.status input.expected_state)) goal_state_conflict _
          s h in
      run-terminate_state locked.status locked s refl
        (same-eq locked.status input.expected_state same) h

module _ {S : Type 0} (tx : ReviewTx S) where
  run-terminate_valid :
      (checked : Result AppError (Unit {0})) (m : Tx S TerminateResult) (s : S)
      {r : TerminateResult} {s' : S}
      → terminate_valid tx checked m s ≡ (ok r, s')
      → (checked ≡ ok tt) × (within tx.pool m s ≡ (ok r, s'))
  unfolding terminate_valid
  run-terminate_valid (ok u) m s h = (refl, h)
  run-terminate_valid (err e) m s h =
      absurd_of (ap (λ (x : Result AppError TerminateResult × S). x.0) h)

  -- A `Terminate` that reports success was sent with a valid input and has locked the named goal;
  -- under the user's lock it has found the receipt of this very request and replayed it, or has
  -- found none and was performed. With an active cycle that cycle was canceled and the goal
  -- terminated; in review its usages were redacted or deleted, its generations and its draft
  -- deleted and the goal terminated: each by the domain's rule at the expected revisions, with no
  -- generation running, each write of exactly the rows that it is about, in this order. Its commit
  -- succeeded.
  pub terminate-RanTerminate :
      (hash : HashedTermination → String) (input : TerminateInput) (now : Time) (s : S)
      {r : TerminateResult} {s' : S}
      → terminate tx hash input now s ≡ (ok r, s')
      → RanTerminate tx hash input now s r s'
  unfolding terminate terminate_in
  terminate-RanTerminate hash input now s h =
      let (valid_input, h) =
        run-terminate_valid (validate_termination_input input) (terminate_in tx hash input now) s
          h in
      let (h, c) = run-within tx.pool (terminate_in tx hash input now) s h in
      let request_hash : String = hash (terminate_request input) in
      let (u, s1, p1, h) = run-then (tx.lock_user input.user_id) _ s h in
      let (receipt, s2, p2, h) =
        run-bind (tx.find_goal_termination_receipt input.user_id input.operation_id) _ s1 h in
      let (u2, valid, h) =
        run-result (validate_goal_termination_receipt receipt input request_hash) _ s2 h in
      let (locked, s3, p3, h) = run-bind (tx.lock_goal input.user_id input.goal_id) _ s2 h in
      let (own, h) =
        run-guard (is_other_goal locked input.user_id input.goal_id)
          (review_invariant "locked Goal target does not match termination") _ s3 h in
      record {
        receipt = receipt;
        locked = locked;
        before = s1;
        found = s2;
        start = s3;
        input_valid = valid_input;
        user_locked = p1;
        receipt_found = p2;
        goal_locked = p3;
        own = ground (arith, eq_iff locked.user_id input.user_id, eq_iff locked.id input.goal_id);
        outcome = ran_with tx request_hash input now receipt locked s3 valid h;
        committed = c;
      }
