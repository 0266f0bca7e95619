-- ===== src/Application/CycleLaws/Commands.antt =====
-- `CompleteCycle` as a whole: its receipt decides whether it is performed or replayed.
use cycle.Base.{◌≡◌, ap, Option, none, some, String, Result, ok, arith, not, ◌||◌, str_eq, eq_iff}
use cycle.Domain.Cycle.{Time}
use cycle.Domain.Goal.{Goal}
use cycle.Application.Errors.{AppError, cycle_invariant}
use cycle.Application.Views.{CompleteCycleInput, CompleteCycleResult}
use cycle.Application.CycleTx.{CycleTx, CompleteCycleReceipt}
use cycle.Application.CycleResults.{validate_complete_cycle_receipt}
use cycle.Application.CycleCommands.{
  HashedCompletion, complete_cycle, complete_in, complete_cycle_request,
  build_complete_cycle_replay, complete_dispatch,
}
use cycle.Application.TxLaws.{run-bind, run-then, run-result, run-within, run-guard}
use cycle.Application.CycleLaws.Completion.{Performed, run-perform_completion}

-- The receipt is that of this request, and the result is read back.
unfoldable pub Replays :
    {S : Type 0}
    → CycleTx S
    → CompleteCycleInput
    → String
    → CompleteCycleReceipt
    → S
    → CompleteCycleResult
    → S
    → Type 0
Replays tx input hash receipt s r s' =
    (receipt.goal_id ≡ input.goal_id)
    × (receipt.cycle_id ≡ input.cycle_id)
    × (receipt.request_hash ≡ hash)
    × (build_complete_cycle_replay tx input receipt s ≡ (ok r, s'))

-- Without a receipt the command was performed, with one it was replayed.
unfoldable pub CompletionOutcome :
    {S : Type 0}
    → CycleTx S
    → String
    → CompleteCycleInput
    → Time
    → Option CompleteCycleReceipt
    → Goal
    → S
    → CompleteCycleResult
    → S
    → Type 0
CompletionOutcome tx hash input now none locked s r s' = Performed tx input hash now locked s r s'
CompletionOutcome tx hash input now (some receipt) locked s r s' =
    Replays tx input hash receipt s r s'

-- The command read its receipt before it locked the goal.
pub record Ran {S : Type 0} (tx : CycleTx S) (hash : HashedCompletion → String)
    (input : CompleteCycleInput) (now : Time) (s : S) (r : CompleteCycleResult) (s' : S)
    : Type 0 where
  pub receipt : Option CompleteCycleReceipt
  pub locked : Goal
  pub first : S
  pub before : S
  pub found : S
  pub start : S
  pub looked : (tx.find_complete_cycle_receipt input.user_id input.operation_id s).1 ≡ first
  pub user_locked : tx.lock_user input.user_id first ≡ (ok tt, before)
  pub receipt_found :
      tx.find_complete_cycle_receipt input.user_id input.operation_id before ≡ (ok receipt, found)
  pub goal_locked : tx.lock_goal input.user_id input.goal_id found ≡ (ok locked, start)
  pub own : (locked.user_id ≡ input.user_id) × (locked.id ≡ input.goal_id)
  pub outcome :
      CompletionOutcome tx (hash (complete_cycle_request input)) input now receipt locked start r s'
  pub committed : tx.pool.commit_error s' ≡ none

receipt-matches :
    (q : CompleteCycleReceipt) (input : CompleteCycleInput) (h : String)
    → validate_complete_cycle_receipt (some q) input h ≡ ok tt
    → (q.goal_id ≡ input.goal_id) × (q.cycle_id ≡ input.cycle_id) × (q.request_hash ≡ h)
unfolding validate_complete_cycle_receipt
receipt-matches q input h p = ground (
  arith,
  eq_iff q.goal_id input.goal_id,
  eq_iff q.cycle_id input.cycle_id,
  eq_iff q.request_hash h,
)

module _ {S : Type 0} (tx : CycleTx S) (hash : HashedCompletion → String) where
  ran_with :
      (receipt : Option CompleteCycleReceipt) (input : CompleteCycleInput)
      (new_id : Result AppError String) (now : Time) (locked : Goal) (s : S)
      {r : CompleteCycleResult} {s' : S}
      → validate_complete_cycle_receipt receipt input (hash (complete_cycle_request input)) ≡ ok tt
      → complete_dispatch tx receipt input (hash (complete_cycle_request input)) new_id now locked s
        ≡ (ok r, s')
      → CompletionOutcome tx (hash (complete_cycle_request input)) input now receipt locked s r s'
  unfolding complete_dispatch Replays CompletionOutcome
  ran_with none input new_id now locked s v h =
      run-perform_completion tx input (hash (complete_cycle_request input)) new_id now locked s h
  ran_with (some q) input new_id now locked s v h =
      let (a, b, c) = receipt-matches q input (hash (complete_cycle_request input)) v in
      (a, b, c, h)

  -- A `CompleteCycle` that reports success has found no receipt under the user's lock and was
  -- performed, or has found the receipt of this very request and replayed it; its commit succeeded.
  pub complete_cycle-Ran :
      (input : CompleteCycleInput) (new_id : Result AppError String) (now : Time) (s : S)
      {r : CompleteCycleResult} {s' : S}
      → complete_cycle tx hash input new_id now s ≡ (ok r, s')
      → Ran tx hash input now s r s'
  unfolding complete_cycle complete_in
  complete_cycle-Ran input new_id now s h =
      let (h, c) = run-within tx.pool (complete_in tx hash input new_id now) s h in
      let (u, s1, p1, h) =
        run-then (tx.find_complete_cycle_receipt input.user_id input.operation_id) _ s h in
      let (u2, s2, p2, h) = run-then (tx.lock_user input.user_id) _ s1 h in
      let (receipt, s3, p3, h) =
        run-bind (tx.find_complete_cycle_receipt input.user_id input.operation_id) _ s2 h in
      let (u4, valid, h) =
        run-result
          (validate_complete_cycle_receipt receipt input (hash (complete_cycle_request input))) _ s3
          h in
      let (locked, s4, p4, h) = run-bind (tx.lock_goal input.user_id input.goal_id) _ s3 h in
      let (own, h) =
        run-guard
          (not (str_eq locked.user_id input.user_id) || not (str_eq locked.id input.goal_id))
          (cycle_invariant "locked Goal target does not match the command") _ s4 h in
      let outcome = ran_with receipt input new_id now locked s4 valid h in
      record {
        receipt = receipt;
        locked = locked;
        first = s1;
        before = s2;
        found = s3;
        start = s4;
        looked = ap (λ (x : Result AppError (Option CompleteCycleReceipt) × S). x.1) p1;
        user_locked = p2;
        receipt_found = p3;
        goal_locked = p4;
        own = ground (arith, eq_iff locked.user_id input.user_id, eq_iff locked.id input.goal_id);
        outcome = outcome;
        committed = c;
      }
