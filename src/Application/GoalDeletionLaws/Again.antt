-- ===== src/Application/GoalDeletionLaws/Again.antt =====
-- A deletion that is sent again finds the receipt of the first one.
use cycle.Base.{◌≡◌, none, some, ok}
use cycle.Application.Tx.{Tx}
use cycle.Application.GoalTx.{GoalTx, GoalDeleteReceipt, GoalDeleteReceiptRecord}

-- What the lookup answers of a receipt's row.
abbrev pub looked_up : GoalDeleteReceiptRecord → GoalDeleteReceipt
looked_up d = record {
  goal_id = d.goal_id;
  request_hash = d.request_hash;
  expires_at = d.expires_at;
}

-- Once a receipt is inserted, its user can be locked, and the lookup under the lock finds it; a
-- transaction then begins and commits.
pub record KeepsReceipts {S : Type 0} (tx : GoalTx S) : Type 0 where
  pub locks :
      (d : GoalDeleteReceiptRecord) (s t : S)
      → tx.insert_goal_delete_receipt d s ≡ (ok 1, t)
      → (u : S) × (tx.lock_user d.user_id t ≡ (ok tt, u))
  pub finds :
      (d : GoalDeleteReceiptRecord) (s t u : S)
      → tx.insert_goal_delete_receipt d s ≡ (ok 1, t)
      → tx.lock_user d.user_id t ≡ (ok tt, u)
      → (w : S) × (tx.find_goal_delete_receipt d.user_id d.idempotency_key u
          ≡ (ok (some (looked_up d)), w))
  pub begins : (s : S) → tx.pool.begin_error s ≡ none
  pub commits : (s : S) → tx.pool.commit_error s ≡ none
